-- ===== src/Main/Detection.antt =====
-- What `detect_existing` finds on a device that does not fail, and what `main` makes of it.
use native.Mathlib.Nat.{pow-le-pow_right}
use ftn_tananfs.Base.{
  none, ℕ, zero, suc, ◌+◌, ◌^◌, ◌≤◌, ◌<◌, ◌≡◌, ◌≢◌, refl, ap, ◌∙◌, arith, ◌==◌, some, Option, List,
  [], ◌∷◌, length, take, drop, ==→eq, eq→==, ne→==-false, if◌then◌else◌, Bool-cases, inl, inr,
  tests,
}
use ftn_tananfs.Outcome.{Outcome, ok}
use ftn_tananfs.Outcome.Action.{pure}
use ftn_tananfs.Structs.{magic_signature}
use ftn_tananfs.Word.Bytes.{from_le}
use ftn_tananfs.Device.{Device}
use ftn_tananfs.Device.Memory.{IsMemory}
use ftn_tananfs.Filesystem.Mount.{detect_from, detect_existing}
use ftn_tananfs.Main.{start, existing_or_new, requested}

-- The word that `detect_existing` reads for the block size `2 ^ pow`
abbrev pub signature_at : ℕ → List ℕ → ℕ
signature_at pow xs = from_le (take 8 (drop (2 ^ pow + 0x38) xs))

module _ {W : Type 0} {device : Device W} (memory : IsMemory device) where
  detect_round :
      (rounds pow : ℕ) (w : W)
      → 2 ^ pow + 64 ≤ length (memory.content w)
      → (w' : W) × (detect_from device (suc rounds) pow w
          ≡ (if signature_at pow (memory.content w) == magic_signature
                then pure (some (2 ^ pow))
                else detect_from device rounds (pow + 1))
              w')
        × (memory.content w' ≡ memory.content w)
  unfolding detect_from
  detect_round rounds pow w room =
      let (w1, e1, c1, at1) = memory.seeks (2 ^ pow + 0x38) w in
      let (w2, e2, c2) = memory.reads 8 w1 (omega (arith, at1, ap length c1, room)) in
      let raw : take 8 (drop (memory.place w1) (memory.content w1)) ≡ _ =
        λ i. take 8 (drop (at1 i) (c1 i)) in
      (w2, rw (e1, e2, raw) refl, c2 ∙ c1)

  -- The search goes on where there is no signature, and ends at the first one.
  detect_from-first :
      (rounds pow last : ℕ) (w : W)
      → pow ≤ last
      → last < pow + rounds
      → ((p : ℕ) → p < last → pow ≤ p → signature_at p (memory.content w) ≢ magic_signature)
      → signature_at last (memory.content w) ≡ magic_signature
      → 2 ^ last + 64 ≤ length (memory.content w)
      → (w' : W) × (detect_from device rounds pow w ≡ (ok (some (2 ^ last)), w'))
        × (memory.content w' ≡ memory.content w)
  detect_from-first zero pow last w least below clear found room = absurd (omega arith)
  detect_from-first (suc rounds) pow last w least below clear found room =
      let le = pow-le-pow_right {n = 2} (omega arith) {i = pow} {j = last} least in
      let (w', e, same) = detect_round rounds pow w (omega (arith, le, room)) in
      elim (Bool-cases (pow == last)) [
        | inl here ↦
            let at_last : pow ≡ last = ==→eq pow last here in
            let is_magic : signature_at pow (memory.content w) ≡ magic_signature =
              ap (λ p. signature_at p (memory.content w)) at_last ∙ found in
            (w', e ∙ rw (eq→== _ _ is_magic) (ap (λ p. (ok (some (2 ^ p)), w')) at_last), same)
        | inr before ↦
            let less : pow < last = omega (tests, least) in
            let (w'', e', same') =
              detect_from-first rounds (pow + 1) last w' (omega (arith, less))
                (omega (arith, below)) (λ p h q. rw same (clear p h (omega (arith, q))))
                (rw same found) (rw same room) in
            (w'', e ∙ rw (ne→==-false _ _ (clear pow less (omega arith))) e', same' ∙ same)
      ]

  pub detect_existing-first :
      (pow : ℕ) (w : W)
      → 9 ≤ pow
      → pow ≤ 12
      → ((p : ℕ) → p < pow → 9 ≤ p → signature_at p (memory.content w) ≢ magic_signature)
      → signature_at pow (memory.content w) ≡ magic_signature
      → 2 ^ pow + 64 ≤ length (memory.content w)
      → (w' : W) × (detect_existing device w ≡ (ok (some (2 ^ pow)), w'))
        × (memory.content w' ≡ memory.content w)
  unfolding detect_existing
  detect_existing-first pow w least most clear found room =
      detect_from-first 4 9 pow w least (omega (arith, most)) clear found room

  detect_from-none :
      (rounds pow : ℕ) (w : W)
      → pow + rounds ≤ 13
      → 2 ^ 12 + 64 ≤ length (memory.content w)
      → ((p : ℕ) → pow ≤ p → p < pow + rounds → signature_at p (memory.content w) ≢ magic_signature)
      → (w' : W) × (detect_from device rounds pow w ≡ (ok none, w'))
        × (memory.content w' ≡ memory.content w)
  unfolding detect_from
  detect_from-none zero pow w few room clear = (w, refl, refl)
  detect_from-none (suc rounds) pow w few room clear =
      let le = pow-le-pow_right {n = 2} (omega arith) {i = pow} {j = 12} (omega arith) in
      let (w', e, same) = detect_round rounds pow w (omega (arith, le, room)) in
      let (w'', e', same') =
        detect_from-none rounds (pow + 1) w' (omega arith) (omega (arith, ap length same, room))
          (λ p h q. rw same (clear p (omega arith) (omega arith))) in
      (w'', e ∙ rw (ne→==-false _ _ (clear pow (omega arith) (omega arith))) e', same' ∙ same)

  pub detect_existing-none :
      (w : W)
      → 2 ^ 12 + 64 ≤ length (memory.content w)
      → ((p : ℕ) → 9 ≤ p → p ≤ 12 → signature_at p (memory.content w) ≢ magic_signature)
      → (w' : W) × (detect_existing device w ≡ (ok none, w'))
        × (memory.content w' ≡ memory.content w)
  unfolding detect_existing
  detect_existing-none w room clear =
      detect_from-none 4 9 w (omega arith) room (λ p h q. clear p h (omega arith))

  -- With a device and a mount point among the arguments, `main` goes on with what was found.
  pub start_found :
      (parse : List ℕ → Option ℕ) (metadata_size : W → Outcome ℕ) (args : List (List ℕ)) (n : ℕ)
      (found : Outcome (Option ℕ)) (w w' : W)
      → 3 ≤ length args
      → metadata_size w ≡ ok n
      → detect_existing device w ≡ (found, w')
      → start device parse metadata_size args w
        ≡ existing_or_new device found n (requested parse args) w'
  unfolding start
  start_found parse metadata_size [] n found w w' given known e = absurd (omega arith)
  start_found parse metadata_size (a ∷ []) n found w w' given known e = absurd (omega arith)
  start_found parse metadata_size (a ∷ b ∷ []) n found w w' given known e = absurd (omega arith)
  start_found parse metadata_size (a ∷ b ∷ c ∷ rest) n found w w' given known e = rw (known, e) refl
