-- ===== src/RegularFile/Invariant.antt =====
-- The calls on a regular file keep every invariant of the superblock and the bitmaps.
use ftn_tananfs.Base.{ℕ, List}
use ftn_tananfs.Outcome.Keeps.{Keeps}
use ftn_tananfs.Device.{Device}
use ftn_tananfs.Filesystem.{Filesystem}
use ftn_tananfs.Filesystem.Invariant.{
  IsInvariant, Keeps-on_store, Keeps-flush_inode, Keeps-release_inode,
}
use ftn_tananfs.Filesystem.Invariant.Shared.{Shares}
use ftn_tananfs.RawFile.Invariant.{
  raw_rules, Keeps-read as Keeps-read_raw, Keeps-write as Keeps-write_raw,
}
use ftn_tananfs.RawFile.Resizing.{Keeps-remove as Keeps-remove_raw}
use ftn_tananfs.RegularFile.{timestamp_now, read, write, load, flush, drop, remove}

module _ {W : Type 0} {device : Device W} {P : Filesystem W → Type 0}
    (invariant : IsInvariant device P) where
  pub Keeps-timestamp_now : Keeps P (timestamp_now device)
  unfolding timestamp_now
  Keeps-timestamp_now = search Keeps-on_store

  pub ruleset file_rules = (raw_rules, Keeps-timestamp_now, Keeps-flush_inode)

  pub Keeps-read : (offset size : ℕ) → Keeps (Shares P) (read device offset size)
  unfolding read
  Keeps-read offset size = search (file_rules, Keeps-read_raw) depth 20

  pub Keeps-write : (offset : ℕ) (bs : List ℕ) → Keeps (Shares P) (write device offset bs)
  unfolding write
  Keeps-write offset bs = search (file_rules, Keeps-write_raw) depth 20

  pub Keeps-load : (index : ℕ) → Keeps P (load device index)
  unfolding load
  Keeps-load index = search file_rules depth 20

  Keeps-flush : Keeps (Shares P) (flush device)
  unfolding flush
  Keeps-flush = search file_rules depth 20

  pub Keeps-drop : Keeps (Shares P) (drop device)
  unfolding drop
  Keeps-drop = search (file_rules, Keeps-flush) depth 20

  pub Keeps-remove : Keeps (Shares P) (remove device)
  unfolding remove
  Keeps-remove = search (file_rules, Keeps-drop, Keeps-remove_raw, Keeps-release_inode) depth 20
