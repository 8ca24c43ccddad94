-- ===== src/Bitmap/NextFree.antt =====
-- `next_free` from index 0, as the allocator calls it, finds the first free index.
use ftn_tananfs.Base.{
  ℕ, zero, suc, ◌+◌, ◌-◌, ◌*◌, ◌/◌, ◌%◌, ◌^◌, ◌≤◌, ◌<◌, ◌≡◌, refl, ◌∙◌, arith, tests, Bool-cases,
  inl, inr, ltb, ◌==◌, Bool, true, false, Option, none, some, List, [], ◌∷◌, length, get_or, ==→eq,
  eq→==, ne→==-false,
}
use ftn_tananfs.Outcome.{word}
use ftn_tananfs.Structs.{Bitmap}
use ftn_tananfs.Word.Bits.{bit, bit-lt, bit-zero, bit-complement, and-pow}
use ftn_tananfs.Bitmap.{free_bit, free_from, next_free}
use ftn_tananfs.Bitmap.Bits.{occupied}
use native.Mathlib.Nat.{one-le-pow}
use Prim.Native.Nat.{bit_and}
use mathlib.Core.Path.{subst}

-- What the search of one word for a free bit comes to, from bit `s` on over `n` bits.
data InWord (w s n : ℕ) : Option ℕ → Type 0 where
  hit :
      (k : ℕ)
      → s ≤ k
      → k < s + n
      → bit k w ≡ 0
      → ((j : ℕ) → s ≤ j → j < k → bit j w ≡ 1)
      → InWord w s n (some k)
  full : ((j : ℕ) → s ≤ j → j < s + n → bit j w ≡ 1) → InWord w s n none

bit_clear : (k w : ℕ) → (bit_and w (2 ^ k) == 0) ≡ (bit k w == 0)
bit_clear k w = ground (arith, and-pow k w, one-le-pow k 2, bit-lt k w)

InWord-step : (w s n : ℕ) {r : Option ℕ} → bit s w ≡ 1 → InWord w (s + 1) n r → InWord w s (suc n) r
InWord-step w s n set (hit k lo hi clear before) = hit k (omega arith) (omega arith) clear earlier
  where
    earlier : (j : ℕ) → s ≤ j → j < k → bit j w ≡ 1
    earlier j a b = elim (Bool-cases (j == s)) [
      | inl e ↦ rw (==→eq j s e) set
      | inr ne ↦ before j (omega tests) b
    ]
InWord-step w s n set (full all) = full every
  where
    every : (j : ℕ) → s ≤ j → j < s + suc n → bit j w ≡ 1
    every j a b = elim (Bool-cases (j == s)) [
      | inl e ↦ rw (==→eq j s e) set
      | inr ne ↦ all j (omega tests) (omega arith)
    ]

free_bit-InWord : (n s w : ℕ) → InWord w s n (free_bit n s w)
unfolding free_bit
free_bit-InWord zero s w = full (λ j a b. absurd (omega arith))
free_bit-InWord (suc n) s w = elim (Bool-cases (bit s w == 0)) [
  | inl clear ↦
      rw (bit_clear s w, clear)
        (hit s (omega arith) (omega arith) (==→eq _ _ clear) (λ j a b. absurd (omega arith)))
  | inr set ↦
      rw (bit_clear s w, set)
        (InWord-step w s n (omega (tests, bit-lt s w)) (free_bit-InWord n (s + 1) w))
]

-- The occupancy that a list of words stands for.
abbrev taken : List ℕ → ℕ → Bool
taken ws i = bit (i % 64) (get_or ws (i / 64) 0) == 1

taken_low : (w : ℕ) (ws : List ℕ) (j : ℕ) → j < 64 → taken (w ∷ ws) j ≡ (bit j w == 1)
taken_low w ws j h =
    let q : j / 64 ≡ 0 = omega arith in let r : j % 64 ≡ j = omega arith in rw (q, r)

taken_high : (w : ℕ) (ws : List ℕ) (j : ℕ) → taken (w ∷ ws) (64 + j) ≡ taken ws j
taken_high w ws j =
    let q : (64 + j) / 64 ≡ suc (j / 64) = omega arith in
    let r : (64 + j) % 64 ≡ j % 64 = omega arith in rw (q, r)

-- The first free index of the words `ws`, which begin at word `c`, or that there is none.
data Search (ws : List ℕ) (c : ℕ) : Option ℕ → Type 0 where
  hit :
      {i : ℕ} (n : ℕ)
      → i ≡ c * 64 + n
      → n < 64 * length ws
      → taken ws n ≡ false
      → ((j : ℕ) → j < n → taken ws j ≡ true)
      → Search ws c (some i)
  full : ((j : ℕ) → j < 64 * length ws → taken ws j ≡ true) → Search ws c none

all_taken :
    (w : ℕ) (ws : List ℕ) (m : ℕ)
    → ((j : ℕ) → j < 64 → bit j w ≡ 1)
    → ((j : ℕ) → j < m → taken ws j ≡ true)
    → (j : ℕ) → j < 64 + m
    → taken (w ∷ ws) j ≡ true
all_taken w ws m low high j h = elim (Bool-cases (ltb j 64)) [
  | inl l ↦ taken_low w ws j (omega tests) ∙ eq→== _ _ (low j (omega tests))
  | inr g ↦
      let e : j ≡ 64 + (j - 64) = omega tests in
      rw e (taken_high w ws (j - 64) ∙ high (j - 64) (omega tests))
]

-- A word with every bit taken is passed over.
skip :
    (w : ℕ) (ws : List ℕ) (c : ℕ) {r : Option ℕ}
    → ((j : ℕ) → j < 64 → bit j w ≡ 1)
    → Search ws (c + 1) r
    → Search (w ∷ ws) c r
skip w ws c all (Search.hit n e lt free before) =
    Search.hit (64 + n) (omega arith) (omega arith) (taken_high w ws n ∙ free)
      (all_taken w ws n all before)
skip w ws c all (Search.full every) =
    Search.full (λ j h. all_taken w ws (64 * length ws) all every j (omega arith))

in_word :
    (w : ℕ) (ws : List ℕ) (c : ℕ) {r rest : Option ℕ}
    → InWord w 0 64 r
    → Search ws (c + 1) rest
    → Search (w ∷ ws) c (elim r [ none ↦ rest | some bit ↦ some (c * 64 + bit) ])
in_word w ws c (InWord.hit k lo hi clear before) later =
    Search.hit k refl (omega arith) (taken_low w ws k (omega arith) ∙ ne→==-false _ _ (omega arith))
      (λ j h. taken_low w ws j (omega arith) ∙ eq→== _ _ (before j (omega arith) h))
in_word w ws c (InWord.full all) later =
    skip w ws c (λ j h. all j (omega arith) (omega arith)) later

ones : (w j : ℕ) → w ≡ word - 1 → j < 64 → bit j w ≡ 1
ones w j e h = rw e (omega (arith, bit-complement 64 j 0 (omega arith) h, bit-zero j))

free_from-Search : (ws : List ℕ) (c : ℕ) → Search ws c (free_from 0 c ws)
unfolding free_from
free_from-Search [] c = Search.full (λ j h. absurd (omega arith))
free_from-Search (w ∷ ws) c = elim (Bool-cases (w == word - 1)) [
  | inl max ↦ rw max (skip w ws c (λ j. ones w j (==→eq _ _ max)) (free_from-Search ws (c + 1)))
  | inr less ↦ rw less (in_word w ws c (free_bit-InWord 64 0 w) (free_from-Search ws (c + 1)))
]

-- The first free index of a bitmap, or that every index of its words is occupied.
pub data FirstFree (b : Bitmap) : Option ℕ → Type 0 where
  first :
      (i : ℕ)
      → i < 64 * length b.bitfield
      → occupied b i ≡ false
      → ((j : ℕ) → j < i → occupied b j ≡ true)
      → FirstFree b (some i)
  full : ((j : ℕ) → j < 64 * length b.bitfield → occupied b j ≡ true) → FirstFree b none

Search-FirstFree : (b : Bitmap) {r : Option ℕ} → Search b.bitfield 0 r → FirstFree b r
Search-FirstFree b (Search.hit {i} n e lt free before) =
    let same : n ≡ i = omega arith in
    subst (λ k. FirstFree b (some k)) same (FirstFree.first n lt free before)
Search-FirstFree b (Search.full every) = FirstFree.full every

-- `next_free(0)` returns the first index that is not occupied, and `None` only if every bit of
-- the bitmap is set.
pub next_free-FirstFree : (b : Bitmap) → FirstFree b (next_free b 0)
unfolding next_free
next_free-FirstFree b = Search-FirstFree b (free_from-Search b.bitfield 0)
