-- ===== src/Fuse/Attributes.antt =====
-- src/filesystem/fuse.rs: the handlers that read or write an inode and nothing else.
use ftn_tananfs.Base.{ℕ, ◌%◌, ◌^◌, ◌==◌, if◌then◌else◌, Option, none, some}
use ftn_tananfs.Error.{Errno}
use ftn_tananfs.Outcome.Action.{Action, pure, gets, ◌>>◌}
use ftn_tananfs.Structs.{Inode}
use ftn_tananfs.Structs.Attrs.{attrs}
use ftn_tananfs.Device.{Device}
use ftn_tananfs.Filesystem.{Filesystem}
use ftn_tananfs.Filesystem.Access.{load_inode, flush_inode}
use ftn_tananfs.Fuse.{Reply, answered, or_error}

-- The inode that `setattr` flushes
unfoldable pub changed : Option ℕ → Option ℕ → Option ℕ → Inode → Inode
changed mode uid gid inode = record inode {
  mode = elim mode [ none ↦ inode.mode | some m ↦ m % 2 ^ 16 ];
  uid = elim uid [ none ↦ inode.uid | some u ↦ u ];
  gid = elim gid [ none ↦ inode.gid | some g ↦ g ];
}

module _ {W : Type 0} (device : Device W) where
  unfoldable pub getattr : ℕ → Action (Filesystem W) Reply
  getattr ino = answered (
      or_error (load_inode device ino)
        (λ inode. gets (λ fs. Reply.attr (attrs inode fs.superblock))))

  unfoldable pub setattr : ℕ → Option ℕ → Option ℕ → Option ℕ → Action (Filesystem W) Reply
  setattr ino mode uid gid = answered (
      or_error (load_inode device ino) (λ inode. do
        let inode' = changed mode uid gid inode
        flush_inode device inode'
        gets (λ fs. Reply.attr (attrs inode' fs.superblock))))

  -- `open` (`open_file` here) and `opendir`, by the type that is opened
  unfoldable pub open_as : ℕ → ℕ → Action (Filesystem W) Reply
  open_as file_type ino = answered (
      or_error (load_inode device ino) (λ inode.
        if inode.file_type == file_type
        then pure Reply.opened
        else pure (Reply.error Errno.eacces)))

  unfoldable pub open_file : ℕ → Action (Filesystem W) Reply
  open_file ino = open_as device.regular_file ino

  unfoldable pub opendir : ℕ → Action (Filesystem W) Reply
  opendir ino = open_as device.directory ino
