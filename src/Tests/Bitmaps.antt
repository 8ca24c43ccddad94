-- ===== src/Tests/Bitmaps.antt =====
-- A bitmap over 70 indices, with the first 65 of them occupied.
use ftn_tananfs.Base.{
  ℕ, zero, suc, ◌≡◌, ◌<◌, ◌==◌, if◌then◌else◌, refl, arith, true, some, List, [], ◌∷◌, length,
  get_or, replicate,
}
use ftn_tananfs.Outcome.{ok, word}
use ftn_tananfs.Structs.{Bitmap}
use ftn_tananfs.Bitmap.{set, get, next_free, free_from, free_bit, load_chunks, flush_chunks}
use ftn_tananfs.Bitmap.Bits.{IsValid}
use ftn_tananfs.Bitmap.Access.{get-set}
use ftn_tananfs.Bitmap.NextFree.{FirstFree, next_free-FirstFree}
use ftn_tananfs.Bitmap.Image.{load_chunks-flush_chunks}

abbrev crowded : Bitmap
crowded = record { bitfield = 0xffff_ffff_ffff_ffff ∷ 1 ∷ []; count = 70; position = 1536 }

next_crowded : next_free crowded 0 ≡ some 65
unfolding next_free free_from free_bit
next_crowded = refl

-- From an index inside a word, the search passes over free bits of the words behind it.
next_skips :
    next_free (record { bitfield = 0xffff_ffff_ffff_ffff ∷ 0 ∷ []; count = 128; position = 0 }) 60
    ≡ some 124
unfolding next_free free_from free_bit
next_skips = refl

words-lt : (i : ℕ) → get_or crowded.bitfield i 0 < word
words-lt zero = omega arith
words-lt (suc zero) = omega arith
words-lt (suc (suc i)) = omega arith

abbrev crowded-IsValid : IsValid crowded
crowded-IsValid = record { covers = omega arith; bounded = words-lt; below_null = omega arith }

get-set_example :
    (b' : Bitmap) × (set 69 true crowded ≡ (ok tt, b'))
    × IsValid b'
    × (b'.count ≡ 70)
    × ((j : ℕ) → j < 70 → get b' j ≡ (if j == 69 then ok true else get crowded j))
get-set_example = get-set crowded 69 true crowded-IsValid (omega arith)

next_free-FirstFree_example : FirstFree crowded (next_free crowded 0)
next_free-FirstFree_example = next_free-FirstFree crowded

load_chunks-flush_chunks_example :
    (bytes : List ℕ) × (flush_chunks 2 crowded.bitfield (replicate 16 0) ≡ ok bytes)
    × (length bytes ≡ 16)
    × (load_chunks 2 (0 ∷ 0 ∷ []) bytes ≡ ok crowded.bitfield)
load_chunks-flush_chunks_example =
    load_chunks-flush_chunks crowded.bitfield (0 ∷ 0 ∷ []) (replicate 16 0) words-lt refl refl
