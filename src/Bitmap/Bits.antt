-- ===== src/Bitmap/Bits.antt =====
-- `get` and `set` against the view of a bitmap as a function from indices to occupancy.
use Prim.Native.Nat.{bit_and}
use native.Mathlib.Nat.{one-le-pow, pow-le-pow_right}
use ftn_tananfs.Base.{
  ℕ, ◌-◌, ◌*◌, ◌/◌, ◌%◌, ◌^◌, ◌≤◌, ◌<◌, ◌≡◌, ◌≢◌, refl, arith, tests, Bool-cases, inl, inr, ◌==◌,
  if◌then◌else◌, Bool, true, false, not, length, get_or, set as set_elem, replicate,
  get_elem?-eq-get_or, get_or-set_self, get_or-set_ne, length-set, length-replicate,
  get_or-replicate, ==→eq, eq→==, ne→==-false,
}
use ftn_tananfs.Error.{Error}
use ftn_tananfs.Outcome.{ok, err, word}
use ftn_tananfs.Structs.{Bitmap, null_block}
use ftn_tananfs.Structs.Size.{size_in_bytes-IsBitmapSize, size_in_usize-size_in_bytes}
use ftn_tananfs.Word.Bits.{
  bit, bit-lt, bit-zero, bit-bit_or, bit-bit_and, bit-pow_self, bit-pow_ne, bit-complement, and-pow,
  or-lt, and-lt,
}
use ftn_tananfs.Bitmap.{empty, put_bit, set, get}

-- There is a bit for every index, every word is a machine word, and no index is `NULL_BLOCK`.
pub record IsValid (b : Bitmap) : Type 0 where
  pub covers : b.count ≤ 64 * length b.bitfield
  pub bounded : (i : ℕ) → get_or b.bitfield i 0 < word
  pub below_null : b.count ≤ null_block

-- The occupancy of index `i`.
abbrev pub occupied : Bitmap → ℕ → Bool
occupied b i = bit (i % 64) (get_or b.bitfield (i / 64) 0) == 1

mask_test : (i w : ℕ) → not (bit_and w (2 ^ i) == 0) ≡ (bit i w == 1)
mask_test i w = ground (arith, and-pow i w, one-le-pow i 2, bit-lt i w)

pow-lt-word : (c : ℕ) → c < 64 → 2 ^ c < word
pow-lt-word c h =
    omega (arith, pow-le-pow_right {n = 2} (omega arith) {i = c} {j = 63} (omega arith))

bit-put_bit_self : (v : Bool) (c w : ℕ) → c < 64 → (bit c (put_bit v c w) == 1) ≡ v
bit-put_bit_self true c w h = ground (arith, bit-bit_or c w (2 ^ c), bit-pow_self c, bit-lt c w)
bit-put_bit_self false c w h = ground (
  arith,
  bit-bit_and c w (word - 1 - 2 ^ c),
  bit-complement 64 c (2 ^ c) (pow-lt-word c h) h,
  bit-pow_self c,
)

bit-put_bit_ne : (v : Bool) (c d w : ℕ) → c < 64 → d < 64 → c ≢ d → bit d (put_bit v c w) ≡ bit d w
bit-put_bit_ne true c d w hc hd ne =
    omega (arith, bit-bit_or d w (2 ^ c), bit-pow_ne c d ne, bit-lt d w)
bit-put_bit_ne false c d w hc hd ne = omega (
  arith,
  bit-bit_and d w (word - 1 - 2 ^ c),
  bit-complement 64 d (2 ^ c) (pow-lt-word c hc) hd,
  bit-pow_ne c d ne,
  bit-lt d w,
)

put_bit-lt : (v : Bool) (c w : ℕ) → c < 64 → w < word → put_bit v c w < word
put_bit-lt true c w hc hw = or-lt 64 w (2 ^ c) hw (pow-lt-word c hc)
put_bit-lt false c w hc hw = and-lt 64 w (word - 1 - 2 ^ c) hw

-- Reading the occupancy of an index below the count succeeds, with the bit of that index.
pub get_lem : (b : Bitmap) (i : ℕ) → IsValid b → i < b.count → get b i ≡ ok (occupied b i)
unfolding get
get_lem b i v h = ground (
  arith,
  v.covers,
  v.below_null,
  get_elem?-eq-get_or {0} b.bitfield (i / 64) 0 (omega arith),
  mask_test (i % 64) (get_or b.bitfield (i / 64) 0),
)

-- The bitmap after `set i value`.
abbrev pub written : Bitmap → ℕ → Bool → Bitmap
written b i value = record b {
  bitfield = set_elem b.bitfield (i / 64) (put_bit value (i % 64) (get_or b.bitfield (i / 64) 0));
}

pub set-written :
    (b : Bitmap) (i : ℕ) (value : Bool)
    → IsValid b
    → i < b.count
    → set i value b ≡ (ok tt, written b i value)
unfolding set
set-written b i value v h =
    ground (arith, v.covers, get_elem?-eq-get_or {0} b.bitfield (i / 64) 0 (omega arith))

pub set_out_of_bounds :
    (b : Bitmap) (i : ℕ) (value : Bool) → b.count ≤ i → set i value b ≡ (err Error.out_of_bounds, b)
unfolding set
set_out_of_bounds b i value h = ground arith

-- The word that holds index `i`, and the bitmap's words after a write.
abbrev row : Bitmap → ℕ → ℕ
row b i = get_or b.bitfield (i / 64) 0

row-written :
    (b : Bitmap) (i j : ℕ) (value : Bool)
    → IsValid b
    → i < b.count
    → row (written b i value) j
      ≡ (if j / 64 == i / 64 then put_bit value (i % 64) (row b i) else row b j)
row-written b i j value v h = elim (Bool-cases (j / 64 == i / 64)) [
  | inl same ↦
      rw (same, ==→eq _ _ same)
        (get_or-set_self b.bitfield (i / 64) (put_bit value (i % 64) (row b i)) 0
          (omega (arith, v.covers)))
  | inr other ↦ rw other (
      get_or-set_ne b.bitfield (i / 64) (j / 64) (put_bit value (i % 64) (row b i)) 0 (omega tests))
]

-- The occupancy after a write: the new value at its index, the old one everywhere else.
pub occupied-written :
    (b : Bitmap) (i j : ℕ) (value : Bool)
    → IsValid b
    → i < b.count
    → occupied (written b i value) j ≡ (if j == i then value else occupied b j)
occupied-written b i j value v h = elim (Bool-cases (j / 64 == i / 64)) [
  | inl same ↦ elim (Bool-cases (j % 64 == i % 64)) [
    | inl hit ↦
        let e : j ≡ i = omega tests in
        rw (row-written b i j value v h, same, eq→== _ _ e, ==→eq _ _ hit)
          (bit-put_bit_self value (i % 64) (row b i) (omega arith))
    | inr miss ↦
        let ne : j ≢ i = omega tests in
        rw (
          row-written b i j value v h,
          same,
          ne→==-false _ _ ne,
          bit-put_bit_ne value (i % 64) (j % 64) (row b i) (omega arith) (omega arith)
              (omega tests),
          ==→eq _ _ same,
        )
  ]
  | inr other ↦
      let ne : j ≢ i = omega tests in rw (row-written b i j value v h, other, ne→==-false _ _ ne)
]

pub written-IsValid :
    (b : Bitmap) (i : ℕ) (value : Bool) → IsValid b → i < b.count → IsValid (written b i value)
written-IsValid b i value v h = record {
  covers =
      omega
        (arith, v.covers, length-set {0} b.bitfield (i / 64) (put_bit value (i % 64) (row b i)));
  bounded = bounded_at;
  below_null = v.below_null;
}
  where
    bounded_at : (j : ℕ) → get_or (written b i value).bitfield j 0 < word
    bounded_at j = elim (Bool-cases (j == i / 64)) [
      | inl hit ↦
          rw
            (
              ==→eq _ _ hit,
              get_or-set_self b.bitfield (i / 64) (put_bit value (i % 64) (row b i)) 0
                  (omega (arith, v.covers)),
            )
            (put_bit-lt value (i % 64) (row b i) (omega arith) (v.bounded (i / 64)))
      | inr miss ↦
          rw
            (get_or-set_ne b.bitfield (i / 64) j (put_bit value (i % 64) (row b i)) 0 (omega tests))
            (v.bounded j)
    ]

-- A new bitmap over at most `2 ^ 63` fields is valid, and every field is free.
pub empty-IsValid :
    (count position : ℕ)
    → count ≤ 2 ^ 63
    → (b : Bitmap) × (empty count position ≡ ok b)
      × IsValid b
      × (b.count ≡ count)
      × ((i : ℕ) → occupied b i ≡ false)
unfolding empty
empty-IsValid count position h =
    let (bytes, e, size) = size_in_bytes-IsBitmapSize count h in
    (
      record { bitfield = replicate (bytes / 8) 0; count = count; position = position },
      rw (size_in_usize-size_in_bytes count e),
      record {
        covers = omega (arith, size.room, size.whole, length-replicate {0} {A = ℕ} (bytes / 8) 0);
        bounded = λ i. rw (get_or-replicate {A = ℕ} (bytes / 8) i 0) (omega arith);
        below_null = omega arith;
      },
      refl,
      λ i. rw (get_or-replicate {A = ℕ} (bytes / 8) (i / 64) 0, bit-zero (i % 64)),
    )
