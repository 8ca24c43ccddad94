-- ===== src/Word/Bits.antt =====
-- The bits of `usize` words: what `|`, `&`, `!` and `<<` do to each bit.
use Prim.Native.Nat.{digits, bit_and, bit_or, bit_and-bitwise, bit_or-bitwise}
use native.Mathlib.Nat.{pow-suc, one-le-pow}
use ftn_tananfs.Base.{
  ℕ, zero, suc, ◌+◌, ◌-◌, ◌*◌, ◌/◌, ◌%◌, ◌^◌, ◌≤◌, ◌<◌, min, max, ◌≡◌, ◌≢◌, refl, arith, ap,
}

-- Bit `i` of `w`, as 0 or 1.
abbrev pub bit : ℕ → ℕ → ℕ
bit zero w = w % 2
bit (suc i) w = bit i (w / 2)

-- One binary digit at a time: the fuel in the meaning of the native operations does not matter.
digit_fuel :
    (z : ℕ → ℕ) (f : ℕ → ℕ → ℕ) (n m a b : ℕ) → a ≤ n → a ≤ m → digits z f n a b ≡ digits z f m a b
digit_fuel z f zero zero a b p q = refl
digit_fuel z f zero (suc m) zero b p q = refl
digit_fuel z f zero (suc m) (suc a) b p q = absurd (omega arith)
digit_fuel z f (suc n) zero zero b p q = refl
digit_fuel z f (suc n) zero (suc a) b p q = absurd (omega arith)
digit_fuel z f (suc n) (suc m) zero b p q = refl
digit_fuel z f (suc n) (suc m) (suc a) b p q =
    rw (digit_fuel z f n m (suc a / 2) (b / 2) (omega arith) (omega arith))

or_digit : (a b : ℕ) → bit_or a b ≡ bit_or (a / 2) (b / 2) * 2 + max (a % 2) (b % 2)
or_digit zero b = omega (arith, bit_or-bitwise 0 b, bit_or-bitwise 0 (b / 2))
or_digit (suc a) b = omega (
  arith,
  bit_or-bitwise (suc a) b,
  bit_or-bitwise (suc a / 2) (b / 2),
  digit_fuel (λ y. y) max a (suc a / 2) (suc a / 2) (b / 2) (omega arith) (omega arith),
)

and_digit : (a b : ℕ) → bit_and a b ≡ bit_and (a / 2) (b / 2) * 2 + min (a % 2) (b % 2)
and_digit zero b = omega (arith, bit_and-bitwise 0 b, bit_and-bitwise 0 (b / 2))
and_digit (suc a) b = omega (
  arith,
  bit_and-bitwise (suc a) b,
  bit_and-bitwise (suc a / 2) (b / 2),
  digit_fuel (λ y. 0) min a (suc a / 2) (suc a / 2) (b / 2) (omega arith) (omega arith),
)

pub bit-lt : (i w : ℕ) → bit i w < 2
bit-lt zero w = omega arith
bit-lt (suc i) w = bit-lt i (w / 2)

pub bit-zero : (i : ℕ) → bit i 0 ≡ 0
bit-zero zero = refl
bit-zero (suc i) = bit-zero i

pub bit-bit_or : (i a b : ℕ) → bit i (bit_or a b) ≡ max (bit i a) (bit i b)
bit-bit_or zero a b = omega (arith, or_digit a b)
bit-bit_or (suc i) a b =
    let half : bit_or a b / 2 ≡ bit_or (a / 2) (b / 2) = omega (arith, or_digit a b) in
    rw half (bit-bit_or i (a / 2) (b / 2))

pub bit-bit_and : (i a b : ℕ) → bit i (bit_and a b) ≡ min (bit i a) (bit i b)
bit-bit_and zero a b = omega (arith, and_digit a b)
bit-bit_and (suc i) a b =
    let half : bit_and a b / 2 ≡ bit_and (a / 2) (b / 2) = omega (arith, and_digit a b) in
    rw half (bit-bit_and i (a / 2) (b / 2))

pub bit-pow_self : (i : ℕ) → bit i (2 ^ i) ≡ 1
bit-pow_self zero = refl
bit-pow_self (suc i) =
    let half : 2 ^ suc i / 2 ≡ 2 ^ i = omega (arith, pow-suc 2 i) in rw half (bit-pow_self i)

pub bit-pow_ne : (i j : ℕ) → i ≢ j → bit j (2 ^ i) ≡ 0
bit-pow_ne zero zero h = absurd (h refl)
bit-pow_ne zero (suc j) h = bit-zero j
bit-pow_ne (suc i) zero h = omega (arith, pow-suc 2 i)
bit-pow_ne (suc i) (suc j) h =
    let half : 2 ^ suc i / 2 ≡ 2 ^ i = omega (arith, pow-suc 2 i) in
    rw half (bit-pow_ne i j (λ e. h (ap suc e)))

-- Bits of `!x` in a word of `n` bits.
pub bit-complement : (n i x : ℕ) → x < 2 ^ n → i < n → bit i (2 ^ n - 1 - x) ≡ 1 - bit i x
bit-complement zero i x hx hi = absurd (omega arith)
bit-complement (suc n) zero x hx hi = omega (arith, pow-suc 2 n, one-le-pow n 2)
bit-complement (suc n) (suc i) x hx hi =
    let half : (2 ^ suc n - 1 - x) / 2 ≡ 2 ^ n - 1 - x / 2 =
      omega (arith, pow-suc 2 n, one-le-pow n 2) in
    rw half (bit-complement n i (x / 2) (omega (arith, pow-suc 2 n)) (omega arith))

and-zero_fuel : (n a : ℕ) → a ≤ n → bit_and a 0 ≡ 0
and-zero_fuel n zero h = refl
and-zero_fuel zero (suc a) h = absurd (omega arith)
and-zero_fuel (suc n) (suc a) h =
    omega (arith, and_digit (suc a) 0, and-zero_fuel n (suc a / 2) (omega arith))

and-le_fuel : (n a b : ℕ) → a ≤ n → bit_and a b ≤ a
and-le_fuel n zero b h = omega (arith, bit_and-bitwise 0 b)
and-le_fuel zero (suc a) b h = absurd (omega arith)
and-le_fuel (suc n) (suc a) b h =
    omega (arith, and_digit (suc a) b, and-le_fuel n (suc a / 2) (b / 2) (omega arith))

-- `w & (1 << i)` holds bit `i` alone.
pub and-pow : (i w : ℕ) → bit_and w (2 ^ i) ≡ bit i w * 2 ^ i
and-pow zero w = omega (arith, and_digit w 1, and-zero_fuel (w / 2) (w / 2) (omega arith))
and-pow (suc i) w =
    let half : 2 ^ suc i / 2 ≡ 2 ^ i = omega (arith, pow-suc 2 i) in
    let low : 2 ^ suc i % 2 ≡ 0 = omega (arith, pow-suc 2 i) in
    let step : bit_and w (2 ^ suc i) ≡ bit_and (w / 2) (2 ^ i) * 2 =
      rw (← half) (omega (arith, and_digit w (2 ^ suc i))) in
    omega (arith, step, and-pow i (w / 2), ap (λ (t : ℕ). bit i (w / 2) * t) (pow-suc 2 i))

pub or-lt : (n a b : ℕ) → a < 2 ^ n → b < 2 ^ n → bit_or a b < 2 ^ n
or-lt zero zero zero ha hb = omega arith
or-lt zero (suc a) b ha hb = absurd (omega arith)
or-lt zero zero (suc b) ha hb = absurd (omega arith)
or-lt (suc n) a b ha hb = omega (
  arith,
  or_digit a b,
  or-lt n (a / 2) (b / 2) (omega (arith, pow-suc 2 n)) (omega (arith, pow-suc 2 n)),
  pow-suc 2 n,
)

pub and-lt : (n a b : ℕ) → a < 2 ^ n → bit_and a b < 2 ^ n
and-lt n a b h = omega (arith, and-le_fuel a a b (omega arith))
