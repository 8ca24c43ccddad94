-- ===== src/Structs/Size.antt =====
-- Sizes of src/structs/bitmap.rs (`size_in_bytes`, `size_in_usize`), which the layout of the
-- superblock counts with, and the power of two that they round up to.
use native.Mathlib.Nat.{pow-suc, pow-le-pow_right}
use native.Mathlib.Decide.{dec_lt}
use ftn_tananfs.Base.{
  ℕ, zero, suc, ◌*◌, ◌/◌, ◌%◌, ◌^◌, ◌≤◌, ◌≡◌, ◌∙◌, refl, ap, ◌⊎◌, inl, inr, Bool-cases,
  Option-cases, arith, tests, leb, if◌then◌else◌, Option, none, some,
}
use ftn_tananfs.Outcome.{Outcome, ok, or_panic, ◌>>=◌}

-- The search for the first of `p`, `2 p`, `4 p`, … (`rounds` of them) that is no less than `n`.
unfoldable pub first_pow_from : ℕ → ℕ → ℕ → Option ℕ
first_pow_from zero p n = none
first_pow_from (suc rounds) p n =
    let rest = first_pow_from rounds (2 * p) n in if leb n p then some p else rest

-- `count.next_power_of_two()` on an integer of `width` bits, which panics if that does not fit
unfoldable pub next_power_of_two : ℕ → ℕ → Outcome ℕ
next_power_of_two width n = or_panic (first_pow_from width 1 n)

abbrev pub minimum_size : ℕ
minimum_size = 1024

abbrev pub bits_in_byte : ℕ
bits_in_byte = 8

abbrev pub bytes_in_usize : ℕ
bytes_in_usize = 8

abbrev pub bits_in_usize : ℕ
bits_in_usize = 64

unfoldable pub size_in_bytes : ℕ → Outcome ℕ
size_in_bytes count = do
  p ← next_power_of_two 64 count
  let length = p / bits_in_byte
  ok (if leb minimum_size length then length else minimum_size)

unfoldable pub size_in_usize : ℕ → Outcome ℕ
size_in_usize count = do bytes ← size_in_bytes count; ok (bytes / bytes_in_usize)

-- A power of two as far as a bitmap cares: one up to 8192, or a multiple of it.
data Aligned (p : ℕ) : Type 0 where
  below : (i : ℕ) → i ≤ 13 → p ≡ 2 ^ i → Aligned p
  beyond : p % 8192 ≡ 0 → Aligned p

Aligned-one : Aligned 1
Aligned-one = below 0 (omega arith) refl

Aligned-double : (p : ℕ) → Aligned p → Aligned (2 * p)
Aligned-double p (below i h e) = elim (dec_lt i 13) [
  | yes more ↦ below (suc i) (omega arith) (omega (arith, pow-suc 2 i))
  | no last ↦
      let eq : i ≡ 13 = omega arith in
      let p_is : p ≡ 8192 = e ∙ ap (λ (t : ℕ). 2 ^ t) eq in beyond (omega arith)
]
Aligned-double p (beyond h) = beyond (omega arith)

Aligned-multiple : (p : ℕ) → Aligned p → 8192 ≤ p → p % 8192 ≡ 0
Aligned-multiple p (below i h e) large =
    omega (arith, pow-le-pow_right {n = 2} (omega arith) {i = i} {j = 13} h)
Aligned-multiple p (beyond h) large = h

record First (p n q : ℕ) : Type 0 where
  enough : n ≤ q
  least : (q ≤ p) ⊎ (q ≤ 2 * n)
  above : p ≤ q
  aligned : Aligned q

first_pow_from-First :
    (rounds p n q : ℕ) → Aligned p → first_pow_from rounds p n ≡ some q → First p n q
unfolding first_pow_from
first_pow_from-First zero p n q a h = cc
first_pow_from-First (suc rounds) p n q a h = elim (Bool-cases (leb n p)) [
  | inl fits ↦ record {
    enough = ground arith;
    least = ground arith;
    above = ground arith;
    aligned = let e : q ≡ p = ground arith in rw e a;
  }
  | inr over ↦
      let r : First (2 * p) n q =
        first_pow_from-First rounds (2 * p) n q (Aligned-double p a) (ground arith) in
      record { enough = r.enough; least = ground arith; above = omega arith; aligned = r.aligned }
]

first_pow_from_total :
    (rounds p n : ℕ) → n ≤ p * 2 ^ rounds → (q : ℕ) × (first_pow_from (suc rounds) p n ≡ some q)
unfolding first_pow_from
first_pow_from_total zero p n h = (p, ground arith)
first_pow_from_total (suc rounds) p n h = elim (Bool-cases (leb n p)) [
  | inl fits ↦ (p, ground arith)
  | inr over ↦
      let (q, e) =
        first_pow_from_total rounds (2 * p) n
          (omega (arith, ap (λ (t : ℕ). p * t) (pow-suc 2 rounds))) in
      (q, rw over e)
]

first_pow_from_mono :
    (rounds p n m a b : ℕ)
    → n ≤ m
    → Aligned p
    → first_pow_from rounds p n ≡ some a
    → first_pow_from rounds p m ≡ some b
    → a ≤ b
unfolding first_pow_from
first_pow_from_mono zero p n m a b h al ha hb = cc
first_pow_from_mono (suc rounds) p n m a b h al ha hb = elim (Bool-cases (leb n p)) [
  | inl fits ↦
      let r : First p m b = first_pow_from-First (suc rounds) p m b al hb in
      let e : a ≡ p = ground arith in omega arith
  | inr over ↦
      first_pow_from_mono rounds (2 * p) n m a b h (Aligned-double p al) (ground arith)
        (ground arith)
]

-- A size for a bitmap over `count` fields: room for every field, a multiple of the minimum, and no more than twice what is needed.
pub record IsBitmapSize (count bytes : ℕ) : Type 0 where
  pub room : count ≤ 8 * bytes
  pub at_least : minimum_size ≤ bytes
  pub whole : bytes % 1024 ≡ 0
  pub at_most : (bytes ≡ minimum_size) ⊎ (4 * bytes ≤ count)

sized :
    (count p : ℕ)
    → First 1 count p
    → IsBitmapSize count (if leb minimum_size (p / 8) then p / 8 else minimum_size)
sized count p f = elim (Bool-cases (leb minimum_size (p / 8))) [
  | inl large ↦ rw large (record {
    room = omega (tests, Aligned-multiple p f.aligned (omega tests));
    at_least = omega tests;
    whole = omega (tests, Aligned-multiple p f.aligned (omega tests));
    at_most = omega tests;
  })
  | inr small ↦ rw small (record {
    room = omega (tests);
    at_least = omega arith;
    whole = omega arith;
    at_most = inl refl;
  })
]

first_pow : (count : ℕ) → count ≤ 2 ^ 63 → (q : ℕ) × (first_pow_from 64 1 count ≡ some q)
first_pow count h = first_pow_from_total 63 1 count (omega arith)

-- For every count that is at most `2 ^ 63`, `size_in_bytes` returns a size that has room for all
-- of its bits, is a positive multiple of 1024, and at most twice what is needed.
pub size_in_bytes-IsBitmapSize :
    (count : ℕ)
    → count ≤ 2 ^ 63
    → (bytes : ℕ) × (size_in_bytes count ≡ ok bytes) × IsBitmapSize count bytes
unfolding size_in_bytes next_power_of_two
size_in_bytes-IsBitmapSize count h =
    let (q, e) = first_pow count h in
    (
      (if leb minimum_size (q / 8) then q / 8 else minimum_size),
      rw e,
      sized count q (first_pow_from-First 64 1 count q Aligned-one e),
    )

size_in_bytes_inv :
    (n a : ℕ)
    → size_in_bytes n ≡ ok a
    → (p : ℕ) × (first_pow_from 64 1 n ≡ some p)
      × (a ≡ (if leb minimum_size (p / 8) then p / 8 else minimum_size))
unfolding size_in_bytes next_power_of_two
size_in_bytes_inv n a e = elim (Option-cases (first_pow_from 64 1 n)) [
  | inl none_fits ↦ ground arith
  | inr (p, q) ↦ (p, q, ground arith)
]

-- A bitmap over more fields is not smaller.
pub size_in_bytes_mono :
    (n m a b : ℕ) → n ≤ m → size_in_bytes n ≡ ok a → size_in_bytes m ≡ ok b → a ≤ b
size_in_bytes_mono n m a b h ea eb =
    let (p, ep, fp) = size_in_bytes_inv n a ea in
    let (q, eq, fq) = size_in_bytes_inv m b eb in
    let le : p ≤ q = first_pow_from_mono 64 1 n m p q h Aligned-one ep eq in ground arith

pub size_in_usize-size_in_bytes :
    (count : ℕ) {bytes : ℕ} → size_in_bytes count ≡ ok bytes → size_in_usize count ≡ ok (bytes / 8)
unfolding size_in_usize
size_in_usize-size_in_bytes count e = rw e

pub IsBitmapSize-of_ok : (n a : ℕ) → size_in_bytes n ≡ ok a → IsBitmapSize n a
IsBitmapSize-of_ok n a e =
    let (p, ep, fp) = size_in_bytes_inv n a e in
    rw fp (sized n p (first_pow_from-First 64 1 n p Aligned-one ep))
