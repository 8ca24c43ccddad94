-- ===== src/Device/Holds.antt =====
-- What stands where in a row of bytes that is written over in parts.
use ftn_tananfs.Base.{
  ℕ, ◌+◌, ◌-◌, ◌≤◌, ◌≡◌, refl, sym, ap, ◌∙◌, arith, ◌⊎◌, inl, inr, List, ◌++◌, length, take, drop,
  length-take, length-drop, take-append_less, drop-append_less, take-append-drop, drop-append_add,
  drop-drop,
}
use ftn_tananfs.Block.{overwrite}
use ftn_tananfs.Block.Data.{slice-overwrite_self}

-- The bytes `bs` stand at position `p`.
abbrev pub Holds : ℕ → List ℕ → List ℕ → Type 0
Holds p bs xs = take (length bs) (drop p xs) ≡ bs

-- Two runs of bytes have no position in common.
abbrev pub IsApart : ℕ → ℕ → ℕ → ℕ → Type 0
IsApart p n q m = (p + n ≤ q) ⊎ (q + m ≤ p)

pub cut_front :
    (p n : ℕ) (ys zs : List ℕ) → p + n ≤ length ys → take n (drop p (ys ++ zs)) ≡ take n (drop p ys)
cut_front p n ys zs h =
    ap (take n) (drop-append_less p ys zs (omega arith))
    ∙ take-append_less n (drop p ys) zs (omega (arith, length-drop {0} p ys))

cut_behind :
    (p q : ℕ) (src xs : List ℕ)
    → q ≤ length xs
    → q + length src ≤ p
    → drop p (overwrite q src xs) ≡ drop p xs
cut_behind p q src xs within behind =
    let rest = p - (q + length src) in
    let split : p ≡ q + (length src + rest) = omega arith in
    let split' : q + length src + rest ≡ p = omega arith in
    ap (λ i. drop i (overwrite q src xs)) split
    ∙ drop-append_add q (length src + rest) (take q xs) (src ++ drop (q + length src) xs)
        (omega (arith, length-take {0} q xs))
    ∙ drop-append_add (length src) rest src (drop (q + length src) xs) refl
    ∙ drop-drop rest (q + length src) xs
    ∙ ap (λ i. drop i xs) split'

-- What is written stands there.
pub Holds-overwrite : (p : ℕ) (bs xs : List ℕ) → p ≤ length xs → Holds p bs (overwrite p bs xs)
Holds-overwrite p bs xs h = slice-overwrite_self p bs xs h

-- A write leaves what stands apart from it.
pub Holds-apart :
    (p q : ℕ) (bs src xs : List ℕ)
    → q + length src ≤ length xs
    → IsApart p (length bs) q (length src)
    → Holds p bs xs
    → Holds p bs (overwrite q src xs)
Holds-apart p q bs src xs within (inl before) h =
    cut_front p (length bs) (take q xs) (src ++ drop (q + length src) xs)
      (omega (arith, length-take {0} q xs))
    ∙ sym (cut_front p (length bs) (take q xs) (drop q xs) (omega (arith, length-take {0} q xs)))
    ∙ ap (λ t. take (length bs) (drop p t)) (take-append-drop {0} q xs)
    ∙ h
Holds-apart p q bs src xs within (inr behind) h =
    ap (take (length bs)) (cut_behind p q src xs (omega arith) behind) ∙ h

pub Holds-at : (p q : ℕ) (bs xs ys : List ℕ) → p ≡ q → xs ≡ ys → Holds q bs ys → Holds p bs xs
Holds-at p q bs xs ys at same h = (λ i. take (length bs) (drop (at i) (same i))) ∙ h
