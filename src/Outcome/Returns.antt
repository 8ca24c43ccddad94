-- ===== src/Outcome/Returns.antt =====
-- What an action returns when it ends well: a rule for each way to build an action.
use ftn_tananfs.Base.{◌≡◌, refl, sym, Bool, true, false, if◌then◌else◌}
use ftn_tananfs.Error.{Error}
use ftn_tananfs.Outcome as Checked
use ftn_tananfs.Outcome.{Outcome, ok, err, panic, assert}
use ftn_tananfs.Outcome.Action.{Action, pure, lift, continue, ◌>>=◌}

-- A result of `m` has `Q`.
pub record Returns {S A : Type 0} (Q : A → Type 0) (m : Action S A) : Type 0 where
  pub at : (s : S) (a : A) → (m s).0 ≡ ok a → Q a

module _ {A : Type 0} where
  pub of_ok : (Q : A → Type 0) (a b : A) → Q a → ok a ≡ ok b → Q b
  of_ok Q a b q h = let e : a ≡ b = cc in rw (sym e) q

  pub ok-of-err : (C : Type 0) (e : Error) (b : A) → err e ≡ ok b → C
  ok-of-err C e b h = cc

  pub ok-of-panic : (C : Type 0) (b : A) → panic ≡ ok b → C
  ok-of-panic C b h = cc

module _ {S A : Type 0} {Q : A → Type 0} where
  pub Returns-pure : (a : A) → Q a → Returns {S = S} Q (pure a)
  Returns-pure a q = record { at = λ s b h. of_ok Q a b q h }

  pub Returns-lift : (r : Outcome A) → ((a : A) → r ≡ ok a → Q a) → Returns {S = S} Q (lift r)
  Returns-lift r q = record { at = λ s b h. q b h }

  pub Returns-if :
      (b : Bool) (m n : Action S A)
      → (b ≡ true → Returns Q m)
      → (b ≡ false → Returns Q n)
      → Returns Q (if b then m else n)
  Returns-if true m n km kn = km refl
  Returns-if false m n km kn = kn refl

module _ {S A : Type 0} {Q R : A → Type 0} where
  pub Returns-weaken : (m : Action S A) → ((a : A) → Q a → R a) → Returns Q m → Returns R m
  Returns-weaken m weaken q = record { at = λ s a h. weaken a (q.at s a h) }

module _ {S A B : Type 0} {Q : B → Type 0} where
  Returns-continue :
      (r : Outcome A) (f : A → Action S B) (s : S)
      → ((a : A) → r ≡ ok a → Returns Q (f a))
      → (b : B) → (continue r f s).0 ≡ ok b
      → Q b
  Returns-continue (ok a) f s kf b h = (kf a refl).at s b h
  Returns-continue (err e) f s kf b h = ok-of-err (Q b) e b h
  Returns-continue panic f s kf b h = ok-of-panic (Q b) b h

module _ {S A B : Type 0} {R : A → Type 0} {Q : B → Type 0} where
  -- The rest may use what `m` returns.
  pub Returns-bind :
      (m : Action S A) (f : A → Action S B)
      → Returns R m
      → ((a : A) → R a → Returns Q (f a))
      → Returns Q (m >>= f)
  Returns-bind m f km kf = record {
    at = λ s b h. Returns-continue (m s).0 f (m s).1 (λ a e. kf a (km.at s a e)) b h;
  }

module _ {S A B : Type 0} {Q : B → Type 0} where
  -- The rest has `Q` whatever `m` returns.
  pub Returns-after :
      (m : Action S A) (f : A → Action S B) → ((a : A) → Returns Q (f a)) → Returns Q (m >>= f)
  Returns-after m f kf =
      Returns-bind {R = λ a. Unit {0}} m f (record { at = λ s a h. tt }) (λ a u. kf a)

-- A sequence that ends well, taken apart.
module _ {A B : Type 0} where
  pub bind_ok :
      (r : Outcome A) (f : A → Outcome B) (b : B)
      → Checked.◌>>=◌ r f ≡ ok b
      → (a : A) × (r ≡ ok a) × (f a ≡ ok b)
  bind_ok (ok a) f b h = (a, refl, h)
  bind_ok (err e) f b h = ok-of-err _ e b h
  bind_ok panic f b h = ok-of-panic _ b h

pub asserted : (b : Bool) (u : Unit {0}) → assert b ≡ ok u → b ≡ true
asserted true u h = refl
asserted false u h = ok-of-panic _ u h
