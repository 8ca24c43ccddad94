-- ===== src/Word/Int.antt =====
-- Signed 64-bit integers: `i64` values, and the casts between them and `u64`.
use ftn_tananfs.Base.{ℕ, suc, ◌+◌, ◌-◌, ◌%◌, ◌^◌, ltb, leb, if◌then◌else◌, Bool, ◌&&◌}
use ftn_tananfs.Outcome.{Outcome, ok, panic, word}

-- `negsuc n` is -(n + 1).
pub data ℤ : Type 0 where
  pos : ℕ → ℤ
  negsuc : ℕ → ℤ

abbrev pub pos_part : ℤ → ℕ
pos_part (pos n) = n
pos_part (negsuc n) = 0

abbrev pub neg_part : ℤ → ℕ
neg_part (pos n) = 0
neg_part (negsuc n) = suc n

-- a - b, as an integer
abbrev pub sub_ℕ : ℕ → ℕ → ℤ
sub_ℕ a b = if leb b a then pos (a - b) else negsuc (b - a - 1)

infixl 65 ◌+i◌ ◌-i◌
infix 50 ◌<ℤ◌
-- `x as i64`, for a `u64`
abbrev pub as_i64 : ℕ → ℤ
as_i64 n = if ltb n (2 ^ 63) then pos n else negsuc (word - 1 - n)

-- `x as u64`, for an `i64`
abbrev pub as_u64 : ℤ → ℕ
as_u64 (pos n) = n
as_u64 (negsuc n) = word - 1 - n

-- `x as u16`, for an `i32`
abbrev pub as_u16 : ℤ → ℕ
as_u16 (pos n) = n % 2 ^ 16
as_u16 (negsuc n) = 2 ^ 16 - 1 - n % 2 ^ 16

-- `a < b`
abbrev pub ◌<ℤ◌ : ℤ → ℤ → Bool
a <ℤ b = ltb (pos_part a + neg_part b) (pos_part b + neg_part a)

abbrev in_range : ℤ → Outcome ℤ
in_range a = if ltb (pos_part a) (2 ^ 63) && leb (neg_part a) (2 ^ 63) then ok a else panic

-- `i64` operators
abbrev pub ◌+i◌ : ℤ → ℤ → Outcome ℤ
a +i b = in_range (sub_ℕ (pos_part a + pos_part b) (neg_part a + neg_part b))

abbrev pub ◌-i◌ : ℤ → ℤ → Outcome ℤ
a -i b = in_range (sub_ℕ (pos_part a + neg_part b) (neg_part a + pos_part b))
