-- ===== src/Outcome.antt =====
-- How a call ends. Arithmetic is that of a build with overflow checks (`cargo build`, `cargo
-- test`): a sum or difference that does not fit panics, and so do a failed assertion and an index
-- out of range.
pub mod Action
pub mod Keeps
pub mod Returns
pub mod Ends
use ftn_tananfs.Base.{
  ℕ, ◌+◌, ◌-◌, ◌*◌, ◌/◌, ◌%◌, ◌^◌, ◌≤◌, ◌<◌, ◌≡◌, ◌≢◌, refl, Bool, true, false, arith, tests, ltb,
  leb, ◌==◌, if◌then◌else◌, Option, none, some,
}
use ftn_tananfs.Error.{Error}

pub data Outcome {ℓ} (A : Type ℓ) : Type ℓ where
  ok : A → Outcome A
  err : Error → Outcome A
  panic : Outcome A

module _ {ℓ κ} {A : Type ℓ} {B : Type κ} where
  infixl 5 ◌>>=◌ ◌>>◌
  abbrev pub ◌>>=◌ : Outcome A → (A → Outcome B) → Outcome B
  ok a >>= f = f a
  err e >>= f = err e
  panic >>= f = panic

  abbrev pub ◌>>◌ : Outcome A → Outcome B → Outcome B
  m >> k = m >>= λ _. k

-- `assert!`, `debug_assert!`
abbrev pub assert : Bool → Outcome (Unit {0})
assert true = ok tt
assert false = panic

-- `if c { return Err(e) }`
abbrev pub fail_if : Bool → Error → Outcome (Unit {0})
fail_if true e = err e
fail_if false e = ok tt

-- `xs[i]`, where the read is an `Option`
abbrev pub or_panic {ℓ} : {A : Type ℓ} → Option A → Outcome A
or_panic none = panic
or_panic (some a) = ok a

abbrev pub word : ℕ
word = 2 ^ 64

-- `u64` and `usize` operators.
infixl 65 ◌+u◌ ◌-u◌
infixl 70 ◌*u◌ ◌/u◌ ◌%u◌
abbrev pub ◌+u◌ : ℕ → ℕ → Outcome ℕ
a +u b = if ltb (a + b) word then ok (a + b) else panic

abbrev pub ◌-u◌ : ℕ → ℕ → Outcome ℕ
a -u b = if leb b a then ok (a - b) else panic

abbrev pub ◌*u◌ : ℕ → ℕ → Outcome ℕ
a *u b = if ltb (a * b) word then ok (a * b) else panic

abbrev pub ◌/u◌ : ℕ → ℕ → Outcome ℕ
a /u b = if b == 0 then panic else ok (a / b)

abbrev pub ◌%u◌ : ℕ → ℕ → Outcome ℕ
a %u b = if b == 0 then panic else ok (a % b)

-- Each operator where it does not panic, for `rw`.
pub +u-ok : (a b : ℕ) → a + b < word → (a +u b) ≡ ok (a + b)
+u-ok a b h = ground arith

pub -u-ok : (a b : ℕ) → b ≤ a → (a -u b) ≡ ok (a - b)
-u-ok a b h = ground arith

pub *u-ok : (a b : ℕ) → a * b < word → (a *u b) ≡ ok (a * b)
*u-ok a b h = ground arith

pub /u-ok : (a b : ℕ) → 0 < b → (a /u b) ≡ ok (a / b)
/u-ok a b h = ground arith

pub %u-ok : (a b : ℕ) → 0 < b → (a %u b) ≡ ok (a % b)
%u-ok a b h = ground arith

pub assert-ok : (b : Bool) → b ≡ true → assert b ≡ ok tt
assert-ok true h = refl
assert-ok false h = cc
