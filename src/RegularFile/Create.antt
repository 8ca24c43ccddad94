-- ===== src/RegularFile/Create.antt =====
-- src/filetypes/regular_file.rs: `FileOperations::new` and `FileOperations::remove`, which work on
-- the parent directory.
use ftn_tananfs.Base.{ℕ, false, true, List}
use ftn_tananfs.Outcome.Action.{Action, pure, gets, modify, ◌>>=◌, ◌>>◌}
use ftn_tananfs.Structs.{Metadata, null_block}
use ftn_tananfs.Device.{Device}
use ftn_tananfs.Filesystem.{Filesystem}
use ftn_tananfs.Filesystem.Using.{Using, on_object, on_fs, scoped}
use ftn_tananfs.Filesystem.Access.{flush_inode}
use ftn_tananfs.Filesystem.Allocator.{acquire_inode, release_inode}
use ftn_tananfs.RawFile as RawFile
use ftn_tananfs.RawFile.Remove.{remove as remove_raw}
use ftn_tananfs.RegularFile.{RegularFile, timestamp_now, drop}
use ftn_tananfs.Directory.{DirectoryChildIdentifier}
use ftn_tananfs.Directory.Children.{in_directory, remove_child}
use ftn_tananfs.Directory.Create.{new_inode, add_to_parent}

module _ {W : Type 0} (device : Device W) where
  -- `FileOperations::new`: the object, whose scope the caller ends
  unfoldable pub new : ℕ → List ℕ → ℕ → Action (Filesystem W) RegularFile
  new parent name mode = do
    now ← timestamp_now device
    index ← acquire_inode device
    block_size ← gets (λ fs. fs.superblock.block_size)
    let file = RawFile.new block_size
    add_to_parent device parent name index
    let metadata : Metadata = record {
      m0 = parent;
      m1 = null_block;
      m2 = null_block;
      m3 = null_block;
      m4 = null_block;
    }
    let inode = new_inode index mode device.regular_file now metadata file
    flush_inode device inode
    pure (record { inode = inode; file = file; modified = true; removed = false })

  -- `FileOperations::remove`, which ends the scope of the file
  unfoldable pub remove : Action (Using RegularFile W) (Unit {0})
  remove = scoped (drop device) (do
    inode ← gets (λ u. u.object.inode)
    on_fs (remove_raw device inode.index)
    on_fs (
        in_directory device inode.metadata.m0
          (remove_child device (DirectoryChildIdentifier.by_inode inode.index)))
    on_fs (release_inode device inode.index)
    on_object (modify (λ f. record f { removed = true })))
