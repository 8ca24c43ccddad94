-- ===== src/RawFile/Invariant.antt =====
-- The calls on a raw file keep every invariant of the superblock and the bitmaps.
use ftn_tananfs.Base.{ℕ, zero, suc, Bool, true, false, List, [], ◌∷◌}
use ftn_tananfs.Outcome.Keeps.{Keeps}
use ftn_tananfs.Structs.{Block}
use ftn_tananfs.Device.{Device}
use ftn_tananfs.Filesystem.{Filesystem}
use ftn_tananfs.Filesystem.Invariant.{
  IsInvariant, Keeps-load_inode, Keeps-load_block, Keeps-flush_block, Keeps-acquire_block,
  Keeps-release_block,
}
use ftn_tananfs.Filesystem.Invariant.Shared.{Shares, shared_rules}
use ftn_tananfs.RawFile.{get_nth_block, walk, initialize, append_block}
use ftn_tananfs.RawFile.Read.{read, read_rounds, read_u16, read_u64, read_string, read_sized_string}
use ftn_tananfs.RawFile.Write.{append_if, write, write_rounds, next_or_append}

module _ {W : Type 0} {device : Device W} {P : Filesystem W → Type 0}
    (invariant : IsInvariant device P) where
  pub ruleset raw_rules = (
    shared_rules, Keeps-load_inode, Keeps-load_block, Keeps-flush_block, Keeps-acquire_block,
    Keeps-release_block,
  )

  pub Keeps-walk : (n : ℕ) (block : Block) → Keeps (Shares P) (walk device n block)
  unfolding walk
  Keeps-walk zero block = search raw_rules
  Keeps-walk (suc n) block = search (raw_rules, Keeps-walk n) depth 20

  pub Keeps-get_nth_block : (n : ℕ) → Keeps (Shares P) (get_nth_block device n)
  unfolding get_nth_block
  Keeps-get_nth_block n = search (raw_rules, Keeps-walk) depth 20

  pub Keeps-initialize : Keeps (Shares P) (initialize device)
  unfolding initialize
  Keeps-initialize = search raw_rules depth 20

  pub Keeps-append_block : Keeps (Shares P) (append_block device)
  unfolding append_block
  Keeps-append_block = search raw_rules depth 20

  pub Keeps-read_rounds :
      (fuel : ℕ) (block : Block) (bs : List ℕ) → Keeps (Shares P) (read_rounds device fuel block bs)
  unfolding read_rounds
  Keeps-read_rounds fuel block [] = search raw_rules
  Keeps-read_rounds zero block (b ∷ bs) = search raw_rules
  Keeps-read_rounds (suc fuel) block (b ∷ bs) = search (raw_rules, Keeps-read_rounds fuel) depth 20

  pub Keeps-read : (n : ℕ) → Keeps (Shares P) (read device n)
  unfolding read
  Keeps-read n = search (raw_rules, Keeps-get_nth_block, Keeps-read_rounds) depth 20

  pub Keeps-next_or_append : (block : Block) → Keeps (Shares P) (next_or_append device block)
  unfolding next_or_append
  Keeps-next_or_append block = search (raw_rules, Keeps-append_block) depth 20

  pub Keeps-write_rounds :
      (fuel : ℕ) (block : Block) (bs : List ℕ)
      → Keeps (Shares P) (write_rounds device fuel block bs)
  unfolding write_rounds
  Keeps-write_rounds fuel block [] = search raw_rules
  Keeps-write_rounds zero block (b ∷ bs) = search raw_rules
  Keeps-write_rounds (suc fuel) block (b ∷ bs) =
      search (raw_rules, Keeps-next_or_append, Keeps-write_rounds fuel) depth 20

  Keeps-append_if : (full : Bool) → Keeps (Shares P) (append_if device full)
  unfolding append_if
  Keeps-append_if true = search (raw_rules, Keeps-append_block) depth 20
  Keeps-append_if false = search raw_rules

  pub Keeps-write : (bs : List ℕ) → Keeps (Shares P) (write device bs)
  unfolding write
  Keeps-write bs =
      search (raw_rules, Keeps-initialize, Keeps-append_if, Keeps-get_nth_block, Keeps-write_rounds)
        depth 20

  pub Keeps-read_u16 : Keeps (Shares P) (read_u16 device)
  unfolding read_u16
  Keeps-read_u16 = search (raw_rules, Keeps-read) depth 20

  pub Keeps-read_u64 : Keeps (Shares P) (read_u64 device)
  unfolding read_u64
  Keeps-read_u64 = search (raw_rules, Keeps-read) depth 20

  pub Keeps-read_string : (n : ℕ) → Keeps (Shares P) (read_string device n)
  unfolding read_string
  Keeps-read_string n = search (raw_rules, Keeps-read) depth 20

  pub Keeps-read_sized_string : Keeps (Shares P) (read_sized_string device)
  unfolding read_sized_string
  Keeps-read_sized_string = search (raw_rules, Keeps-read_u16, Keeps-read_string) depth 20
