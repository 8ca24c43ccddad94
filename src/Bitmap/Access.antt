-- ===== src/Bitmap/Access.antt =====
-- `set` and `get` together: a write is read back, and every other index reads as before.
use ftn_tananfs.Base.{ℕ, ◌<◌, ◌≡◌, refl, ap, ◌∙◌, ◌==◌, if◌then◌else◌, Bool, Bool-cases, inl, inr}
use ftn_tananfs.Outcome.{ok}
use ftn_tananfs.Structs.{Bitmap}
use ftn_tananfs.Bitmap.{set, get}
use ftn_tananfs.Bitmap.Bits.{
  IsValid, occupied, written, get_lem, set-written, occupied-written, written-IsValid,
}

-- On a valid bitmap, `set` of an index below the count succeeds and gives a valid bitmap of the
-- same count, in which `get` reads the new value at the index and what it read before elsewhere.
pub get-set :
    (b : Bitmap) (i : ℕ) (value : Bool)
    → IsValid b
    → i < b.count
    → (b' : Bitmap) × (set i value b ≡ (ok tt, b'))
      × IsValid b'
      × (b'.count ≡ b.count)
      × ((j : ℕ) → j < b.count → get b' j ≡ (if j == i then ok value else get b j))
get-set b i value v h = (
  written b i value,
  set-written b i value v h,
  written-IsValid b i value v h,
  refl,
  λ j below.
      get_lem (written b i value) j (written-IsValid b i value v h) below
      ∙ ap ok (occupied-written b i j value v h)
      ∙ read j below,
)
  where
    read :
        (j : ℕ)
        → j < b.count
        → ok (if j == i then value else occupied b j) ≡ (if j == i then ok value else get b j)
    read j below = elim (Bool-cases (j == i)) [
      | inl e ↦ rw e
      | inr ne ↦ rw (ne, get_lem b j v below)
    ]
