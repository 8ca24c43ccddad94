-- ===== src/Fuse/Files.antt =====
-- src/filesystem/fuse.rs: the handlers on the contents of a regular file.
use ftn_tananfs.Base.{ℕ, ◌%◌, ◌^◌, if◌then◌else◌, true, List, length}
use ftn_tananfs.Outcome.Action.{Action, pure, lift, gets, ◌>>=◌, ◌>>◌}
use ftn_tananfs.Word.Int.{ℤ, as_i64, as_u64, as_u16, ◌<ℤ◌, ◌+i◌, ◌-i◌}
use ftn_tananfs.Device.{Device}
use ftn_tananfs.Filesystem.{Filesystem}
use ftn_tananfs.Filesystem.Using.{Using, with_object, scoped}
use ftn_tananfs.RawFile.Extend.{extend}
use ftn_tananfs.RawFile.Shrink.{shrink}
use ftn_tananfs.RegularFile.{RegularFile, load, drop, on_file, set_modified, set_inode}
use ftn_tananfs.RegularFile as RegularFile
use ftn_tananfs.Fuse.{Reply, answered, or_error}

module _ {W : Type 0} (device : Device W) where
  -- `match RegularFile::load(…)`, with the handler's work on the file
  unfoldable pub with_file : ℕ → Action (Using RegularFile W) Reply → Action (Filesystem W) Reply
  with_file ino m =
      answered (or_error (load device ino) (λ file. with_object file (scoped (drop device) m)))

  unfoldable pub read : ℕ → ℤ → ℕ → Action (Filesystem W) Reply
  read ino offset size =
      with_file ino
        (do bytes ← RegularFile.read device (as_u64 offset) size; pure (Reply.bytes bytes))

  unfoldable pub write : ℕ → ℤ → List ℕ → Action (Filesystem W) Reply
  write ino offset bytes = with_file ino (do
    RegularFile.write device (as_u64 offset) bytes
    pure (Reply.written (length bytes % 2 ^ 32)))

  unfoldable pub fallocate : ℕ → ℤ → ℤ → ℤ → Action (Filesystem W) Reply
  fallocate ino offset count mode = with_file ino (do
    size ← gets (λ u. as_i64 u.object.file.size)
    rest ← lift (size -i offset)
    new_size ← lift (rest +i count)
    on_file (
        if size <ℤ new_size
        then extend device (as_u64 new_size)
        else shrink device (as_u64 new_size))
    set_modified true
    set_inode (λ inode. record inode { mode = as_u16 mode })
    pure Reply.done)
