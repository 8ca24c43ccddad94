-- ===== src/Directory/Create.antt =====
-- src/filetypes/directory.rs: `FileOperations::new` and `FileOperations::remove`.
use ftn_tananfs.Base.{
  ℕ, ◌%◌, ◌^◌, ◌==◌, ◌&&◌, if◌then◌else◌, true, false, List, [], ◌∷◌, length, replicate,
}
use ftn_tananfs.Outcome.{panic}
use ftn_tananfs.Outcome.Action.{Action, pure, raise, rescue, lift, gets, modify, ◌>>=◌, ◌>>◌}
use ftn_tananfs.Structs.{Inode, Metadata, null_block}
use ftn_tananfs.Device.{Device}
use ftn_tananfs.Filesystem.{Filesystem, root_inode}
use ftn_tananfs.Filesystem.Using.{Using, on_object, on_fs}
use ftn_tananfs.Filesystem.Access.{load_inode, flush_inode}
use ftn_tananfs.Filesystem.Allocator.{acquire_inode}
use ftn_tananfs.RawFile.{RawByteFile}
use ftn_tananfs.RawFile as RawFile
use ftn_tananfs.RegularFile.{timestamp_now}
use ftn_tananfs.DirectoryChild.{DirectoryChild}
use ftn_tananfs.Directory.{Directory, add_child}
use ftn_tananfs.Directory.Access.{drop}
use ftn_tananfs.Directory.Children.{in_directory, remove_empty}

-- The inode that `new` of a file or directory writes
unfoldable pub new_inode : ℕ → ℕ → ℕ → ℕ → Metadata → RawByteFile → Inode
new_inode index mode file_type now metadata file = record {
  index = index;
  mode = mode % 2 ^ 16;
  file_type = file_type;
  size = 0;
  uid = 0;
  gid = 0;
  atime = now;
  ctime = now;
  mtime = now;
  dtime = null_block;
  block_count = 1;
  metadata = metadata;
  padding_1 = replicate 5 0;
  first_block = file.first_block;
  last_block = file.last_block;
}

module _ {W : Type 0} (device : Device W) where
  -- `Directory::load(fs, parent)?.add_child(name, inode)?`
  unfoldable pub add_to_parent : ℕ → List ℕ → ℕ → Action (Filesystem W) (Unit {0})
  add_to_parent parent name inode = in_directory device parent (on_object (add_child name inode))

  -- `FileOperations::new`: the object, whose scope the caller ends
  unfoldable pub new : ℕ → List ℕ → ℕ → Action (Filesystem W) Directory
  new parent name mode = do
    now ← timestamp_now device
    index ← acquire_inode device
    block_size ← gets (λ fs. fs.superblock.block_size)
    let file = RawFile.new block_size
    (if parent == root_inode && index == root_inode
        then pure tt
        else add_to_parent parent name index)
    let metadata : Metadata = record {
      m0 = parent;
      m1 = 0;
      m2 = length name;
      m3 = null_block;
      m4 = null_block;
    }
    let inode = new_inode index mode device.directory now metadata file
    flush_inode device inode
    pure (record {
      inode = inode;
      file = file;
      name = name;
      children = [];
      modified = true;
      removed = false;
    })

  -- The first round of the loop of `remove`. It runs while the filesystem is locked, and `load` of
  -- the child locks it again, which does not return: here, that is a panic.
  unfoldable pub remove_first : List DirectoryChild → Action (Using Directory W) (Unit {0})
  remove_first [] = pure tt
  remove_first (c ∷ cs) = do inode ← on_fs (load_inode device c.inode); lift panic

  -- `FileOperations::remove`
  unfoldable pub remove : Action (Using Directory W) (Unit {0})
  remove = do
    on_object (modify (λ dir. record dir { modified = true }))
    children ← gets (λ u. u.object.children)
    rescue (remove_first children) (λ e. rescue (drop device) (λ e'. pure tt) >> raise e)
    remove_empty device
