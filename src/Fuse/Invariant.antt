-- ===== src/Fuse/Invariant.antt =====
-- The handlers keep every invariant of the superblock and the bitmaps.
use ftn_tananfs.Base.{ℕ, List, [], ◌∷◌, Option}
use ftn_tananfs.Error.{to_errno}
use ftn_tananfs.Outcome.Action.{Action}
use ftn_tananfs.Outcome.Keeps.{Keeps, Keeps-pure, Keeps-rescue, Keeps-match_result}
use ftn_tananfs.Word.Int.{ℤ}
use ftn_tananfs.Device.{Device}
use ftn_tananfs.DirectoryChild.{DirectoryChild}
use ftn_tananfs.Filesystem.{Filesystem}
use ftn_tananfs.Filesystem.Using.{Using, with_object, scoped}
use ftn_tananfs.Filesystem.Invariant.{
  IsInvariant, Keeps-flush as Keeps-flush_filesystem, Keeps-force_flush,
}
use ftn_tananfs.Filesystem.Invariant.Shared.{Shares, Keeps-with_object, Keeps-scoped}
use ftn_tananfs.RawFile.Resizing.{Keeps-extend, Keeps-shrink}
use ftn_tananfs.RegularFile.{RegularFile, load, drop}
use ftn_tananfs.RegularFile.Invariant.{
  file_rules, Keeps-load as Keeps-load_file, Keeps-read as Keeps-read_file,
  Keeps-write as Keeps-write_file, Keeps-drop as Keeps-drop_file,
}
use ftn_tananfs.Directory.Invariant.{
  Keeps-load, Keeps-drop, Keeps-in_directory, Keeps-transfer_child, Keeps-remove_child, Keeps-new,
  Keeps-new_file,
}
use ftn_tananfs.Fuse.{DirectoryEntry, Reply}
use ftn_tananfs.Fuse.Session.{destroy, flush, fsync, statfs, access}
use ftn_tananfs.Fuse.Attributes.{getattr, setattr, open_file, opendir, open_as}
use ftn_tananfs.Fuse.Files.{with_file, read, write, fallocate}
use ftn_tananfs.Fuse.Entries.{
  Add, list_children, readdir, lookup, rmdir, unlink, rename, mknod, mkdir,
}

module _ {W : Type 0} {device : Device W} {P : Filesystem W → Type 0}
    (invariant : IsInvariant device P) where
  pub Keeps-destroy : Keeps P (destroy device)
  unfolding destroy
  Keeps-destroy = search (file_rules, Keeps-force_flush) depth 20

  pub Keeps-flush : Keeps P (flush device)
  unfolding flush
  Keeps-flush = search (file_rules, Keeps-flush_filesystem) depth 20

  pub Keeps-fsync : Keeps P (fsync device)
  unfolding fsync
  Keeps-fsync = search (file_rules, Keeps-force_flush) depth 20

  pub Keeps-getattr : (ino : ℕ) → Keeps P (getattr device ino)
  unfolding getattr
  Keeps-getattr ino = search file_rules depth 20

  pub Keeps-setattr :
      (ino : ℕ) (mode uid gid : Option ℕ) → Keeps P (setattr device ino mode uid gid)
  unfolding setattr
  Keeps-setattr ino mode uid gid = search file_rules depth 20

  Keeps-open_as : (file_type ino : ℕ) → Keeps P (open_as device file_type ino)
  unfolding open_as
  Keeps-open_as file_type ino = search file_rules depth 20

  pub Keeps-open_file : (ino : ℕ) → Keeps P (open_file device ino)
  unfolding open_file
  Keeps-open_file ino = Keeps-open_as device.regular_file ino

  pub Keeps-opendir : (ino : ℕ) → Keeps P (opendir device ino)
  unfolding opendir
  Keeps-opendir ino = Keeps-open_as device.directory ino

  Keeps-with_file :
      (ino : ℕ) (m : Action (Using RegularFile W) Reply)
      → Keeps (Shares P) m
      → Keeps P (with_file device ino m)
  unfolding with_file
  Keeps-with_file ino m km =
      Keeps-rescue _ _
        (Keeps-match_result (load device ino) (λ file. with_object file (scoped (drop device) m)) _
          (Keeps-load_file invariant ino)
          (λ file.
            Keeps-with_object file _ (Keeps-scoped (drop device) m (Keeps-drop_file invariant) km))
          (λ e. Keeps-pure (Reply.error (to_errno e))))
        (λ e. Keeps-pure Reply.unanswered)

  pub Keeps-read : (ino : ℕ) (offset : ℤ) (size : ℕ) → Keeps P (read device ino offset size)
  unfolding read
  Keeps-read ino offset size = search (file_rules, Keeps-with_file, Keeps-read_file) depth 20

  pub Keeps-write : (ino : ℕ) (offset : ℤ) (bs : List ℕ) → Keeps P (write device ino offset bs)
  unfolding write
  Keeps-write ino offset bs = search (file_rules, Keeps-with_file, Keeps-write_file) depth 20

  pub Keeps-fallocate :
      (ino : ℕ) (offset count mode : ℤ) → Keeps P (fallocate device ino offset count mode)
  unfolding fallocate
  Keeps-fallocate ino offset count mode =
      search (file_rules, Keeps-with_file, Keeps-extend, Keeps-shrink) depth 20

  Keeps-list_children :
      (add : Add) (ino : ℕ) (offset : ℤ) (index : ℕ) (cs : List DirectoryChild)
      (entries : List DirectoryEntry)
      → Keeps P (list_children device add ino offset index cs entries)
  unfolding list_children
  Keeps-list_children add ino offset index [] entries = search file_rules
  Keeps-list_children add ino offset index (c ∷ cs) entries =
      let rest : (i : ℕ) (es : List DirectoryEntry)
          → Keeps P (list_children device add ino offset i cs es) =
        λ i es. Keeps-list_children add ino offset i cs es in
      search (file_rules, rest) depth 20

  ruleset entry_rules = (file_rules, Keeps-load, Keeps-drop, Keeps-in_directory)

  pub Keeps-readdir : (add : Add) (ino : ℕ) (offset : ℤ) → Keeps P (readdir device add ino offset)
  unfolding readdir
  Keeps-readdir add ino offset = search (entry_rules, Keeps-list_children) depth 20

  pub Keeps-lookup :
      (lossy : List ℕ → List ℕ) (parent : ℕ) (name : List ℕ)
      → Keeps P (lookup device lossy parent name)
  unfolding lookup
  Keeps-lookup lossy parent name = search entry_rules depth 20

  pub Keeps-rmdir : (parent : ℕ) (name : List ℕ) → Keeps P (rmdir device parent name)
  unfolding rmdir
  Keeps-rmdir parent name = search (entry_rules, Keeps-remove_child) depth 20

  pub Keeps-unlink : (parent : ℕ) (name : List ℕ) → Keeps P (unlink device parent name)
  unfolding unlink
  Keeps-unlink parent name = search (entry_rules, Keeps-remove_child) depth 20

  pub Keeps-rename :
      (parent : ℕ) (name : List ℕ) (new_parent : ℕ) (new_name : List ℕ)
      → Keeps P (rename device parent name new_parent new_name)
  unfolding rename
  Keeps-rename parent name new_parent new_name = search (entry_rules, Keeps-transfer_child) depth 20

  pub Keeps-mknod :
      (parent : ℕ) (name : List ℕ) (mode : ℕ) → Keeps P (mknod device parent name mode)
  unfolding mknod
  Keeps-mknod parent name mode = search (entry_rules, Keeps-new_file, Keeps-drop_file) depth 20

  pub Keeps-mkdir :
      (parent : ℕ) (name : List ℕ) (mode : ℕ) → Keeps P (mkdir device parent name mode)
  unfolding mkdir
  Keeps-mkdir parent name mode = search (entry_rules, Keeps-new) depth 20

  pub Keeps-statfs : Keeps P statfs
  unfolding statfs
  Keeps-statfs = search file_rules depth 20

  pub Keeps-access : Keeps P access
  unfolding access
  Keeps-access = search file_rules
