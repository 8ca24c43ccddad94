-- ===== src/Fuse/Session.antt =====
-- src/filesystem/fuse.rs: the filesystem is mounted, flushed, measured and unmounted.
use ftn_tananfs.Base.{ℕ, ◌-◌, ◌^◌, if◌then◌else◌, true, List, [], ◌∷◌}
use ftn_tananfs.Outcome.{◌-u◌}
use ftn_tananfs.Outcome.Action.{Action, pure, lift, gets, gets_ok, ◌>>=◌, ◌>>◌}
use ftn_tananfs.Bitmap.{get as get_bit, set as set_bit}
use ftn_tananfs.Device.{Device}
use ftn_tananfs.Filesystem.{Filesystem, on_inodes, root_inode}
use ftn_tananfs.Filesystem.Using.{with_object, scoped}
use ftn_tananfs.Filesystem.Flushing.{flush as flush_filesystem, force_flush}
use ftn_tananfs.Directory.Access.{drop}
use ftn_tananfs.Directory.Create.{new as new_directory}
use ftn_tananfs.Fuse.{Reply, answered, or_error}

-- "root"
abbrev pub root_name : List ℕ
root_name = 0x72 ∷ 0x6f ∷ 0x6f ∷ 0x74 ∷ []

module _ {W : Type 0} (device : Device W) where
  -- `init` where there is no root directory; `0o750` is 488.
  unfoldable pub create_root : Action (Filesystem W) (Unit {0})
  create_root = do
    on_inodes (set_bit 0 true)
    dir ← new_directory device root_inode root_name 488
    with_object dir (scoped (drop device) (pure tt))

  -- `init`; `Ok` is the reply `done`. The message that asks for the next free inode is not logged.
  unfoldable pub init : Action (Filesystem W) Reply
  init =
      or_error
        (do
          found ← gets_ok (λ fs. get_bit fs.inodes root_inode)
          (if found then pure tt else create_root)
          force_flush device)
        (λ u. pure Reply.done)

  unfoldable pub destroy : Action (Filesystem W) Reply
  destroy = answered (do force_flush device; pure Reply.done)

  unfoldable pub flush : Action (Filesystem W) Reply
  flush = or_error (flush_filesystem device) (λ u. pure Reply.done)

  unfoldable pub fsync : Action (Filesystem W) Reply
  fsync = or_error (force_flush device) (λ u. pure Reply.done)

module _ {W : Type 0} where
  unfoldable pub statfs : Action (Filesystem W) Reply
  statfs = answered (do
    spb ← gets (λ fs. fs.superblock)
    padded_block_size ← lift (spb.block_size -u 8)
    files ← lift (spb.inode_count -u spb.inodes_free)
    pure (
        Reply.statfs (record {
          blocks = spb.block_count;
          bfree = spb.blocks_free;
          bavail = spb.blocks_free;
          files = files;
          ffree = spb.inodes_free;
          bsize = padded_block_size;
          namelen = 2 ^ 16 - 1;
          frsize = padded_block_size;
        })))

  -- `access`
  unfoldable pub access : Action (Filesystem W) Reply
  access = pure Reply.done
