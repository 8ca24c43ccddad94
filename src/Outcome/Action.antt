-- ===== src/Outcome/Action.antt =====
-- A method on `&mut self`: what was written before an error or a panic stays written, so the
-- state comes back in every case.
use ftn_tananfs.Base.{Bool, true, false}
use ftn_tananfs.Error.{Error}
use ftn_tananfs.Outcome.{Outcome, ok, err, panic}

abbrev pub Action {ℓ κ} : Type ℓ → Type κ → Type (ℓ ⊔ κ)
Action S A = S → Outcome A × S

module _ {ℓ κ} {S : Type ℓ} {A : Type κ} where
  abbrev pub pure : A → Action S A
  pure a s = (ok a, s)

  abbrev pub raise : Error → Action S A
  raise e s = (err e, s)

  abbrev pub lift : Outcome A → Action S A
  lift r s = (r, s)

  abbrev pub gets : (S → A) → Action S A
  gets f s = (ok (f s), s)

  abbrev pub gets_ok : (S → Outcome A) → Action S A
  gets_ok f s = (f s, s)

module _ {ℓ} {S : Type ℓ} where
  abbrev pub modify : (S → S) → Action S (Unit {0})
  modify f s = (ok tt, f s)

  abbrev pub raise_if : Bool → Error → Action S (Unit {0})
  raise_if true e s = (err e, s)
  raise_if false e s = (ok tt, s)

module _ {ℓ κ μ} {S : Type ℓ} {A : Type κ} {B : Type μ} where
  abbrev pub continue : Outcome A → (A → Action S B) → Action S B
  continue (ok a) f s = f a s
  continue (err e) f s = (err e, s)
  continue panic f s = (panic, s)

  infixl 5 ◌>>=◌ ◌>>◌
  abbrev pub ◌>>=◌ : Action S A → (A → Action S B) → Action S B
  ◌>>=◌ m f s = let (r, s') = m s in continue r f s'

  abbrev pub ◌>>◌ : Action S A → Action S B → Action S B
  m >> k = m >>= λ _. k

-- `match m { Ok(a) => …, Err(e) => handle(e) }`, and a result that is dropped; a panic goes on.
module _ {ℓ κ} {S : Type ℓ} {A : Type κ} where
  abbrev pub rescued : Outcome A → (Error → Action S A) → Action S A
  rescued (ok a) handle s = (ok a, s)
  rescued (err e) handle s = handle e s
  rescued panic handle s = (panic, s)

  abbrev pub rescue : Action S A → (Error → Action S A) → Action S A
  rescue m handle s = let (r, s') = m s in rescued r handle s'

-- `match m { Ok(a) => f(a), Err(e) => handle(e) }`
module _ {ℓ κ μ} {S : Type ℓ} {A : Type κ} {B : Type μ} where
  abbrev pub branch : Outcome A → (A → Action S B) → (Error → Action S B) → Action S B
  branch (ok a) f handle s = f a s
  branch (err e) f handle s = handle e s
  branch panic f handle s = (panic, s)

  abbrev pub match_result : Action S A → (A → Action S B) → (Error → Action S B) → Action S B
  match_result m f handle s = let (r, s') = m s in branch r f handle s'
