-- ===== src/Error.antt =====
-- src/error.rs: the errors of the filesystem, and the code of the C library that FUSE is given
-- for each. The codes are constants of `libc` and stand here by name.

-- `Io`, `Utf8` and `SliceIndexing` wrap an error of the standard library, which nothing inspects.
pub data Error : Type 0 where
  double_acquire double_release out_of_bounds out_of_memory : Error
  insufficient_bytes thread_sync name_or_inode_duplicate not_found : Error
  null_block directory_not_empty io utf8 slice_indexing : Error

pub data Errno : Type 0 where
  eio ebadf espipe enospc enobufs edeadlock eexist enoent enotempty ebadmsg eacces : Errno

-- `impl From<Error> for libc::c_int`
pub to_errno : Error → Errno
to_errno Error.double_acquire = Errno.eio
to_errno Error.double_release = Errno.ebadf
to_errno Error.out_of_bounds = Errno.espipe
to_errno Error.out_of_memory = Errno.enospc
to_errno Error.insufficient_bytes = Errno.enobufs
to_errno Error.thread_sync = Errno.edeadlock
to_errno Error.name_or_inode_duplicate = Errno.eexist
to_errno Error.not_found = Errno.enoent
to_errno Error.null_block = Errno.espipe
to_errno Error.directory_not_empty = Errno.enotempty
to_errno Error.io = Errno.eio
to_errno Error.utf8 = Errno.ebadmsg
to_errno Error.slice_indexing = Errno.enobufs
