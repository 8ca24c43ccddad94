-- ===== src/RawFile/Resizing.antt =====
-- The calls that change the length of a raw file keep every invariant of the superblock and the
-- bitmaps.
use ftn_tananfs.Base.{ℕ, zero, suc}
use ftn_tananfs.Outcome.Keeps.{Keeps}
use ftn_tananfs.Structs.{Block}
use ftn_tananfs.Device.{Device}
use ftn_tananfs.Filesystem.{Filesystem}
use ftn_tananfs.Filesystem.Invariant.{IsInvariant}
use ftn_tananfs.RawFile.Invariant.{
  raw_rules, Keeps-append_block, Keeps-initialize, Keeps-get_nth_block,
}
use ftn_tananfs.Filesystem.Invariant.Shared.{Shares}
use ftn_tananfs.RawFile.Extend.{extend, extend_within, extend_beyond, extend_rounds}
use ftn_tananfs.RawFile.Shrink.{lose_block, shrink, shrink_to, release_chain, clear, keep_until}
use ftn_tananfs.RawFile.Remove.{remove}

module _ {W : Type 0} {device : Device W} {P : Filesystem W → Type 0}
    (invariant : IsInvariant device P) where
  ruleset file_rules = (raw_rules, Keeps-append_block, Keeps-initialize, Keeps-get_nth_block)

  Keeps-extend_rounds :
      (fuel total delta per_block : ℕ)
      → Keeps (Shares P) (extend_rounds device fuel total delta per_block)
  unfolding extend_rounds
  Keeps-extend_rounds zero total delta per_block = search raw_rules
  Keeps-extend_rounds (suc fuel) total delta per_block =
      search (file_rules, Keeps-extend_rounds fuel) depth 20

  Keeps-extend_within :
      (capacity delta per_block : ℕ) (last : Block)
      → Keeps (Shares P) (extend_within device capacity delta per_block last)
  unfolding extend_within
  Keeps-extend_within capacity delta per_block last = search raw_rules depth 20

  Keeps-extend_beyond :
      (capacity delta per_block : ℕ) (last : Block)
      → Keeps (Shares P) (extend_beyond device capacity delta per_block last)
  unfolding extend_beyond
  Keeps-extend_beyond capacity delta per_block last =
      search (raw_rules, Keeps-extend_rounds) depth 20

  pub Keeps-extend : (capacity : ℕ) → Keeps (Shares P) (extend device capacity)
  unfolding extend
  Keeps-extend capacity =
      search (raw_rules, Keeps-initialize, Keeps-extend_within, Keeps-extend_beyond) depth 20

  Keeps-lose_block : Keeps (Shares P) (lose_block device)
  unfolding lose_block
  Keeps-lose_block = search raw_rules

  Keeps-release_chain : (n index : ℕ) → Keeps (Shares P) (release_chain device n index)
  unfolding release_chain
  Keeps-release_chain zero index = search raw_rules
  Keeps-release_chain (suc n) index =
      search (file_rules, Keeps-lose_block, Keeps-release_chain n) depth 20

  Keeps-clear : (last : Block) → Keeps (Shares P) (clear device last)
  unfolding clear
  Keeps-clear last = search (raw_rules, Keeps-lose_block) depth 20

  Keeps-keep_until :
      (capacity previous : ℕ) (last : Block)
      → Keeps (Shares P) (keep_until device capacity previous last)
  unfolding keep_until
  Keeps-keep_until capacity previous last = search raw_rules depth 20

  Keeps-shrink_to : (capacity : ℕ) → Keeps (Shares P) (shrink_to device capacity)
  unfolding shrink_to
  Keeps-shrink_to capacity =
      search (file_rules, Keeps-clear, Keeps-keep_until, Keeps-release_chain) depth 20

  pub Keeps-shrink : (capacity : ℕ) → Keeps (Shares P) (shrink device capacity)
  unfolding shrink
  Keeps-shrink capacity = search (raw_rules, Keeps-shrink_to) depth 20

  pub Keeps-remove : (index : ℕ) → Keeps P (remove device index)
  unfolding remove
  Keeps-remove index = search (file_rules, Keeps-shrink) depth 20
