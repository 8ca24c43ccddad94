-- ===== src/RawFile/Fuel.antt =====
-- The fuel of the loop of `extend` is enough.
use ftn_tananfs.Base.{
  ℕ, zero, suc, ◌+◌, ◌≤◌, ◌<◌, ◌≡◌, refl, sym, ◌∙◌, le→leb, arith, leb, ltb, true, Bool-cases, inl,
  inr,
}
use ftn_tananfs.Outcome.{Outcome, ok, err, panic, word, ◌+u◌}
use ftn_tananfs.Outcome.Action.{Action, continue}
use ftn_tananfs.Device.{Device}
use ftn_tananfs.RawFile.{Opened, append_block}
use ftn_tananfs.RawFile.Extend.{extend_rounds}

continue-cong :
    {S A B : Type 0} (r : Outcome A) (f g : A → Action S B) (s : S)
    → ((a : A) (t : S) → r ≡ ok a → f a t ≡ g a t)
    → continue r f s ≡ continue r g s
continue-cong (ok a) f g s h = h a s refl
continue-cong (err e) f g s h = refl
continue-cong panic f g s h = refl

+u-value : (a b c : ℕ) → (a +u b) ≡ ok c → c ≡ a + b
+u-value a b c h = elim (Bool-cases (ltb (a + b) word)) [
  | inl fits ↦ let e : ok (a + b) ≡ ok c = simp fits at h in cc
  | inr over ↦ let e : panic ≡ ok c = simp over at h in cc
]

module _ {W : Type 0} (device : Device W) where
  rounds_done :
      (fuel total delta per_block : ℕ) (o : Opened W)
      → leb delta total ≡ true
      → extend_rounds device fuel total delta per_block o ≡ (ok tt, o)
  unfolding extend_rounds
  rounds_done zero total delta per_block o h = rw h refl
  rounds_done (suc fuel) total delta per_block o h = rw h refl

  -- With fuel for the bytes that are still missing, the loop of `extend` never stops for lack of fuel:
  -- any two such amounts give the same run, if a block holds data at all.
  pub extend_rounds_fuel :
      (fuel fuel' total delta per_block : ℕ) (o : Opened W)
      → 0 < per_block
      → delta ≤ total + fuel
      → delta ≤ total + fuel'
      → extend_rounds device fuel total delta per_block o
        ≡ extend_rounds device fuel' total delta per_block o
  unfolding extend_rounds
  extend_rounds_fuel zero fuel' total delta per_block o holds enough enough' =
      let done = le→leb delta total (omega (arith, enough)) in
      rounds_done zero total delta per_block o done
      ∙ sym (rounds_done fuel' total delta per_block o done)
  extend_rounds_fuel (suc fuel) zero total delta per_block o holds enough enough' =
      let done = le→leb delta total (omega (arith, enough')) in
      rounds_done (suc fuel) total delta per_block o done
      ∙ sym (rounds_done zero total delta per_block o done)
  extend_rounds_fuel (suc fuel) (suc fuel') total delta per_block o holds enough enough' =
      elim (Bool-cases (leb delta total)) [
        | inl done ↦ rw done refl
        | inr missing ↦ rw missing (
            continue-cong (append_block device o).0 _ _ (append_block device o).1 (λ n o' e.
              continue-cong (total +u per_block) _ _ o' (λ allocated o'' sum.
                let value = +u-value total per_block allocated sum in
                extend_rounds_fuel fuel fuel' allocated delta per_block o'' holds
                  (omega (arith, value, enough, holds)) (omega (arith, value, enough', holds)))))
      ]
