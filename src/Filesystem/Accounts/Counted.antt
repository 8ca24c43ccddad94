-- ===== src/Filesystem/Accounts/Counted.antt =====
-- What `set` does to the number of free indices that the superblock keeps.
use ftn_tananfs.Base.{ℕ, suc, ◌+◌, ◌-◌, ◌≤◌, ◌<◌, ◌≡◌, arith, true, false, ◌==◌, if◌then◌else◌}
use ftn_tananfs.Error.{Error}
use ftn_tananfs.Outcome.{err, word}
use ftn_tananfs.Structs.{Bitmap, null_block}
use ftn_tananfs.Bitmap.{get}
use ftn_tananfs.Bitmap.Bits.{occupied, written, written-IsValid}
use ftn_tananfs.Bitmap.Free.{free_below-written, free_below_pos, free_below_less}
use ftn_tananfs.Filesystem.Accounts.{IsCounted}

-- Marking an index changes the number of the free ones by one.
module _ {extra count free : ℕ} {b : Bitmap} (c : IsCounted extra count free b) (i : ℕ)
    (below : i < count) where
  pub IsCounted-take : occupied b i ≡ false → IsCounted extra count (free - 1) (written b i true)
  IsCounted-take clear = record {
    valid = written-IsValid b i true c.valid (omega (arith, c.covers));
    covers = c.covers;
    counts = ground (
      arith,
      c.counts,
      free_below-written count b i true c.valid (omega (arith, c.covers)) clear,
    );
    room = c.room;
  }

  pub IsCounted-give : occupied b i ≡ true → IsCounted extra count (free + 1) (written b i false)
  IsCounted-give used = record {
    valid = written-IsValid b i false c.valid (omega (arith, c.covers));
    covers = c.covers;
    counts = ground (
      arith,
      c.counts,
      free_below-written count b i false c.valid (omega (arith, c.covers)) used,
    );
    room = c.room;
  }

  -- An index that is marked without a change of the count
  pub IsCounted-mark :
      occupied b i ≡ false
      → suc extra + count < word
      → IsCounted (suc extra) count free (written b i true)
  IsCounted-mark clear room = record {
    valid = written-IsValid b i true c.valid (omega (arith, c.covers));
    covers = c.covers;
    counts = ground (
      arith,
      c.counts,
      free_below-written count b i true c.valid (omega (arith, c.covers)) clear,
    );
    room = room;
  }

  pub IsCounted-pos : occupied b i ≡ false → 1 ≤ free
  IsCounted-pos clear = omega (arith, c.counts, free_below_pos count b i below clear)

  pub IsCounted-room : occupied b i ≡ true → free + 1 < word
  IsCounted-room used = omega (arith, c.counts, c.room, free_below_less count b i below used)

-- An index that is out of range is refused.
pub get_beyond :
    (b : Bitmap) (i : ℕ)
    → b.count ≤ i
    → get b i ≡ err (if i == null_block then Error.null_block else Error.out_of_bounds)
unfolding get
get_beyond b i h = ground arith
