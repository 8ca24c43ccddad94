-- ===== src/Outcome/Keeps.antt =====
-- Invariants of actions, one rule for each way to build an action.
use ftn_tananfs.Base.{Bool, true, false, if◌then◌else◌, Option, none, some}
use ftn_tananfs.Error.{Error}
use ftn_tananfs.Outcome.{Outcome, ok, err, panic}
use ftn_tananfs.Outcome.Action.{
  Action, pure, raise, lift, gets, gets_ok, modify, raise_if, rescue, rescued, match_result, branch,
  continue, ◌>>=◌,
}

-- `m` keeps `P`, however it ends.
pub record Keeps {S A : Type 0} (P : S → Type 0) (m : Action S A) : Type 0 where
  pub at : (s : S) → P s → P (m s).1

module _ {S A : Type 0} {P : S → Type 0} where
  pub Keeps-pure : (a : A) → Keeps P (pure a)
  Keeps-pure a = record { at = λ s h. h }

  pub Keeps-raise : (e : Error) → Keeps P (raise {A = A} e)
  Keeps-raise e = record { at = λ s h. h }

  pub Keeps-lift : (r : Outcome A) → Keeps P (lift r)
  Keeps-lift r = record { at = λ s h. h }

  pub Keeps-gets : (f : S → A) → Keeps P (gets f)
  Keeps-gets f = record { at = λ s h. h }

  pub Keeps-gets_ok : (f : S → Outcome A) → Keeps P (gets_ok f)
  Keeps-gets_ok f = record { at = λ s h. h }

  pub Keeps-if :
      (b : Bool) (m n : Action S A) → Keeps P m → Keeps P n → Keeps P (if b then m else n)
  Keeps-if true m n km kn = km
  Keeps-if false m n km kn = kn

  Keeps-rescued :
      (r : Outcome A) (handle : Error → Action S A)
      → ((e : Error) → Keeps P (handle e))
      → Keeps P (rescued r handle)
  Keeps-rescued (ok a) handle kh = Keeps-pure a
  Keeps-rescued (err e) handle kh = kh e
  Keeps-rescued panic handle kh = Keeps-lift panic

  pub Keeps-rescue :
      (m : Action S A) (handle : Error → Action S A)
      → Keeps P m
      → ((e : Error) → Keeps P (handle e))
      → Keeps P (rescue m handle)
  Keeps-rescue m handle km kh = record {
    at = λ s h. (Keeps-rescued (m s).0 handle kh).at (m s).1 (km.at s h);
  }

module _ {S : Type 0} {P : S → Type 0} where
  pub Keeps-raise_if : (b : Bool) (e : Error) → Keeps P (raise_if b e)
  Keeps-raise_if true e = record { at = λ s h. h }
  Keeps-raise_if false e = record { at = λ s h. h }

  pub Keeps-modify : (f : S → S) → ((s : S) → P s → P (f s)) → Keeps P (modify f)
  Keeps-modify f kf = record { at = kf }

module _ {S A B : Type 0} {P : S → Type 0} where
  Keeps-continue :
      (r : Outcome A) (f : A → Action S B) → ((a : A) → Keeps P (f a)) → Keeps P (continue r f)
  Keeps-continue (ok a) f kf = kf a
  Keeps-continue (err e) f kf = Keeps-raise e
  Keeps-continue panic f kf = Keeps-lift panic

  pub Keeps-bind :
      (m : Action S A) (f : A → Action S B)
      → Keeps P m
      → ((a : A) → Keeps P (f a))
      → Keeps P (m >>= f)
  Keeps-bind m f km kf = record { at = λ s h. (Keeps-continue (m s).0 f kf).at (m s).1 (km.at s h) }

  Keeps-branch :
      (r : Outcome A) (f : A → Action S B) (handle : Error → Action S B)
      → ((a : A) → Keeps P (f a))
      → ((e : Error) → Keeps P (handle e))
      → Keeps P (branch r f handle)
  Keeps-branch (ok a) f handle kf kh = kf a
  Keeps-branch (err e) f handle kf kh = kh e
  Keeps-branch panic f handle kf kh = Keeps-lift panic

  pub Keeps-match_result :
      (m : Action S A) (f : A → Action S B) (handle : Error → Action S B)
      → Keeps P m
      → ((a : A) → Keeps P (f a))
      → ((e : Error) → Keeps P (handle e))
      → Keeps P (match_result m f handle)
  Keeps-match_result m f handle km kf kh = record {
    at = λ s h. (Keeps-branch (m s).0 f handle kf kh).at (m s).1 (km.at s h);
  }

module _ {S A B : Type 0} {P : S → Type 0} where
  pub Keeps-elim_option :
      (o : Option A) (f : A → Action S B) (n : Action S B)
      → ((a : A) → Keeps P (f a))
      → Keeps P n
      → Keeps P (elim o [ some a ↦ f a | none ↦ n ])
  Keeps-elim_option none f n kf kn = kn
  Keeps-elim_option (some a) f n kf kn = kf a

-- `m` leads from `P` to `Q`, however it ends.
pub record Leads {S A : Type 0} (P Q : S → Type 0) (m : Action S A) : Type 0 where
  pub at : (s : S) → P s → Q (m s).1

module _ {S A B : Type 0} {P Q : S → Type 0} where
  pub Leads-bind :
      (m : Action S A) (f : A → Action S B)
      → Leads P Q m
      → ((a : A) → Keeps Q (f a))
      → Leads P Q (m >>= f)
  Leads-bind m f km kf = record { at = λ s h. (Keeps-continue (m s).0 f kf).at (m s).1 (km.at s h) }

  pub Leads-match_result :
      (m : Action S A) (f : A → Action S B) (handle : Error → Action S B)
      → Leads P Q m
      → ((a : A) → Keeps Q (f a))
      → ((e : Error) → Keeps Q (handle e))
      → Leads P Q (match_result m f handle)
  Leads-match_result m f handle km kf kh = record {
    at = λ s h. (Keeps-branch (m s).0 f handle kf kh).at (m s).1 (km.at s h);
  }

pub ruleset keeps_rules = (
  Keeps-pure, Keeps-raise, Keeps-lift, Keeps-gets, Keeps-gets_ok, Keeps-raise_if, Keeps-modify,
  Keeps-if, Keeps-elim_option, Keeps-rescue, Keeps-match_result, Keeps-bind,
)
