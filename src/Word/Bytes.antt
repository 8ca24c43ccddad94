-- ===== src/Word/Bytes.antt =====
-- `to_le_bytes`, `from_le_bytes` and their big-endian counterparts, at every width.
use native.Mathlib.Nat.{pow-suc}
use mathlib.Core.List.{reverse, reverse_aux, reverse-reverse}
use ftn_tananfs.Base.{
  ℕ, zero, suc, ◌+◌, ◌*◌, ◌/◌, ◌%◌, ◌^◌, ◌<◌, ◌≡◌, ◌∙◌, refl, ap, arith, List, [], ◌∷◌, length,
}

-- `x.to_le_bytes()` for an integer of `n` bytes
abbrev pub le_bytes : ℕ → ℕ → List ℕ
le_bytes zero x = []
le_bytes (suc n) x = x % 256 ∷ le_bytes n (x / 256)

-- `from_le_bytes(bytes)`
abbrev pub from_le : List ℕ → ℕ
from_le [] = 0
from_le (b ∷ bs) = b + 256 * from_le bs

-- `x.to_be_bytes()`, `from_be_bytes(bytes)`
abbrev pub be_bytes : ℕ → ℕ → List ℕ
be_bytes n x = reverse (le_bytes n x)

abbrev pub from_be : List ℕ → ℕ
from_be bs = from_le (reverse bs)

pub length-le_bytes : (n x : ℕ) → length (le_bytes n x) ≡ n
length-le_bytes zero x = refl
length-le_bytes (suc n) x = ap suc (length-le_bytes n (x / 256))

length-reverse_aux {ℓ} :
    {A : Type ℓ} (xs ys : List A) → length (reverse_aux xs ys) ≡ length xs + length ys
length-reverse_aux [] ys = omega arith
length-reverse_aux (x ∷ xs) ys = omega (arith, length-reverse_aux xs (x ∷ ys))

pub length-reverse {ℓ} : {A : Type ℓ} (xs : List A) → length (reverse xs) ≡ length xs
length-reverse xs = omega (arith, length-reverse_aux xs [])

pub length-be_bytes : (n x : ℕ) → length (be_bytes n x) ≡ n
length-be_bytes n x = length-reverse (le_bytes n x) ∙ length-le_bytes n x

pub from_le-le_bytes : (n x : ℕ) → x < 256 ^ n → from_le (le_bytes n x) ≡ x
from_le-le_bytes zero x h = omega arith
from_le-le_bytes (suc n) x h =
    omega (arith, from_le-le_bytes n (x / 256) (omega (arith, pow-suc 256 n)))

pub from_be-be_bytes : (n x : ℕ) → x < 256 ^ n → from_be (be_bytes n x) ≡ x
from_be-be_bytes n x h = rw reverse-reverse (from_le-le_bytes n x h)
