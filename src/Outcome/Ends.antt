-- ===== src/Outcome/Ends.antt =====
-- The state in which an action ends well, with what it returns.
use ftn_tananfs.Base.{◌≡◌, refl, Bool, true, false, if◌then◌else◌}
use ftn_tananfs.Error.{Error}
use ftn_tananfs.Outcome.{Outcome, ok, err, panic}
use ftn_tananfs.Outcome.Action.{Action, continue, raise_if, ◌>>=◌, ◌>>◌}
use ftn_tananfs.Outcome.Returns.{ok-of-err, ok-of-panic}

pub record Ends {S A : Type 0} (Q : A → S → Type 0) (m : Action S A) : Type 0 where
  pub at : (s : S) (a : A) → (m s).0 ≡ ok a → Q a (m s).1

module _ {S A B : Type 0} {Q : B → S → Type 0} where
  Ends-continue :
      (r : Outcome A) (f : A → Action S B) (s : S)
      → ((a : A) → Ends Q (f a))
      → (b : B) → (continue r f s).0 ≡ ok b
      → Q b (continue r f s).1
  Ends-continue (ok a) f s kf b h = (kf a).at s b h
  Ends-continue (err e) f s kf b h = ok-of-err _ e b h
  Ends-continue panic f s kf b h = ok-of-panic _ b h

  pub Ends-after :
      (m : Action S A) (f : A → Action S B) → ((a : A) → Ends Q (f a)) → Ends Q (m >>= f)
  Ends-after m f kf = record { at = λ s b h. Ends-continue (m s).0 f (m s).1 kf b h }

module _ {S A : Type 0} {Q : A → S → Type 0} where
  pub Ends-if : (b : Bool) (m n : Action S A) → Ends Q m → Ends Q n → Ends Q (if b then m else n)
  Ends-if true m n km kn = km
  Ends-if false m n km kn = kn

-- A run of a sequence that ends well, taken apart
module _ {S A B : Type 0} where
  continue_ok :
      (r : Outcome A) (f : A → Action S B) (s : S) (b : B)
      → (continue r f s).0 ≡ ok b
      → (a : A) × (r ≡ ok a) × ((f a s).0 ≡ ok b)
  continue_ok (ok a) f s b h = (a, refl, h)
  continue_ok (err e) f s b h = ok-of-err _ e b h
  continue_ok panic f s b h = ok-of-panic _ b h

  pub run_ok :
      (m : Action S A) (f : A → Action S B) (s : S) (b : B)
      → ((m >>= f) s).0 ≡ ok b
      → (a : A) × ((m s).0 ≡ ok a) × ((f a (m s).1).0 ≡ ok b)
  run_ok m f s b h = continue_ok (m s).0 f (m s).1 b h

module _ {S A : Type 0} where
  -- A run that gets past a check goes on in the same state.
  pub past_raise_if :
      (b : Bool) (e : Error) (m : Action S A) (s : S) (a : A)
      → ((raise_if b e >> m) s).0 ≡ ok a
      → (b ≡ false) × ((m s).0 ≡ ok a)
  past_raise_if true e m s a h = ok-of-err _ e a h
  past_raise_if false e m s a h = (refl, h)
