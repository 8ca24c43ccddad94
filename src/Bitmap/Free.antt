-- ===== src/Bitmap/Free.antt =====
-- The number of free indices below a bound, and how `set` changes it.
use ftn_tananfs.Base.{
  ℕ, zero, suc, ◌+◌, ◌≤◌, ◌<◌, ◌≡◌, refl, ap, arith, tests, Bool-cases, inl, inr, ltb, ◌==◌,
  if◌then◌else◌, Bool, true, false, not, ◌&&◌, ==→eq,
}
use ftn_tananfs.Structs.{Bitmap}
use ftn_tananfs.Bitmap.Bits.{IsValid, occupied, written, occupied-written}

-- How many indices below a bound a test rejects
unfoldable pub clear_below : ℕ → (ℕ → Bool) → ℕ
clear_below zero f = 0
clear_below (suc n) f = if f n then clear_below n f else suc (clear_below n f)

unfoldable pub free_below : ℕ → Bitmap → ℕ
free_below n b = clear_below n (occupied b)

module _ (f g : ℕ → Bool) (i : ℕ) (value : Bool) (was : f i ≡ not value)
    (put : (j : ℕ) → g j ≡ (if j == i then value else f j)) where
  clear_below-put :
      (n : ℕ)
      → clear_below n g + (if value && ltb i n then 1 else 0)
        ≡ clear_below n f + (if not value && ltb i n then 1 else 0)
  unfolding clear_below
  clear_below-put zero = ground arith
  clear_below-put (suc n) = elim (Bool-cases (n == i)) [
    | inl e ↦ let same : n ≡ i = ==→eq _ _ e in ground (arith, put n, was, clear_below-put n, same)
    | inr ne ↦ ground (arith, put n, clear_below-put n)
  ]

clear_below_le : (n : ℕ) (f : ℕ → Bool) → clear_below n f ≤ n
unfolding clear_below
clear_below_le zero f = omega arith
clear_below_le (suc n) f = ground (arith, clear_below_le n f)

clear_below_pos : (n : ℕ) (f : ℕ → Bool) (i : ℕ) → i < n → f i ≡ false → 0 < clear_below n f
unfolding clear_below
clear_below_pos zero f i h free = absurd (omega arith)
clear_below_pos (suc n) f i h free = elim (Bool-cases (i == n)) [
  | inl e ↦ let same : i ≡ n = ==→eq _ _ e in ground (arith, same, free)
  | inr ne ↦ ground (arith, clear_below_pos n f i (omega tests) free)
]

clear_below_less : (n : ℕ) (f : ℕ → Bool) (i : ℕ) → i < n → f i ≡ true → clear_below n f < n
unfolding clear_below
clear_below_less zero f i h used = absurd (omega arith)
clear_below_less (suc n) f i h used = elim (Bool-cases (i == n)) [
  | inl e ↦ let same : i ≡ n = ==→eq _ _ e in ground (arith, same, used, clear_below_le n f)
  | inr ne ↦ ground (arith, clear_below_less n f i (omega tests) used)
]

clear_below_none : (n : ℕ) (f : ℕ → Bool) → ((j : ℕ) → j < n → f j ≡ true) → clear_below n f ≡ 0
unfolding clear_below
clear_below_none zero f every = refl
clear_below_none (suc n) f every =
    rw (every n (omega arith)) (clear_below_none n f (λ j h. every j (omega arith)))

pub free_below_none :
    (n : ℕ) (b : Bitmap) → ((j : ℕ) → j < n → occupied b j ≡ true) → free_below n b ≡ 0
unfolding free_below
free_below_none n b every = clear_below_none n (occupied b) every

-- Setting a free index takes one from the number of free indices, and clearing an occupied one
-- adds one to it.
pub free_below-written :
    (n : ℕ) (b : Bitmap) (i : ℕ) (value : Bool)
    → IsValid b
    → i < b.count
    → occupied b i ≡ not value
    → free_below n (written b i value) + (if value && ltb i n then 1 else 0)
      ≡ free_below n b + (if not value && ltb i n then 1 else 0)
unfolding free_below
free_below-written n b i value v h was =
    clear_below-put (occupied b) (occupied (written b i value)) i value was
      (λ j. occupied-written b i j value v h) n

pub free_below_pos :
    (n : ℕ) (b : Bitmap) (i : ℕ) → i < n → occupied b i ≡ false → 0 < free_below n b
unfolding free_below
free_below_pos n b = clear_below_pos n (occupied b)

pub free_below_less :
    (n : ℕ) (b : Bitmap) (i : ℕ) → i < n → occupied b i ≡ true → free_below n b < n
unfolding free_below
free_below_less n b = clear_below_less n (occupied b)

pub free_below_all : (n : ℕ) (b : Bitmap) → ((i : ℕ) → occupied b i ≡ false) → free_below n b ≡ n
unfolding free_below clear_below
free_below_all zero b free = refl
free_below_all (suc n) b free = rw (free n) (ap suc (free_below_all n b free))
