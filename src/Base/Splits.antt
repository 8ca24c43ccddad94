-- ===== src/Base/Splits.antt =====
-- Where a cut of a list falls in a concatenation.
use Prim.Native.Nat.add
use Prim.Native.Nat.{ℕ, zero, suc, ◌+◌, ◌-◌, ◌≤◌}
use mathlib.Core.Path.{◌≡◌, refl, sym, ap, ◌∙◌}
use mathlib.Core.List.{List, [], ◌∷◌, ◌++◌}
use native.Mathlib.Omega.{arith}
use ftn_tananfs.Base.Lists.{length, take, drop, drop_all}

pub drop-drop : (m n : ℕ) (xs : List ℕ) → drop m (drop n xs) ≡ drop (n + m) xs
drop-drop m zero xs = rw add.zero refl
drop-drop m (suc n) [] = drop_all m [] (omega arith) ∙ sym (drop_all (suc n + m) [] (omega arith))
drop-drop m (suc n) (x ∷ xs) = rw add.suc (drop-drop m n xs)

pub drop-append_less :
    (m : ℕ) (xs ys : List ℕ) → m ≤ length xs → drop m (xs ++ ys) ≡ drop m xs ++ ys
drop-append_less zero xs ys h = refl
drop-append_less (suc m) [] ys h = absurd (omega arith)
drop-append_less (suc m) (x ∷ xs) ys h = drop-append_less m xs ys (omega arith)

pub take-append_more :
    (n : ℕ) (xs ys : List ℕ) → length xs ≤ n → take n (xs ++ ys) ≡ xs ++ take (n - length xs) ys
take-append_more n [] ys h = ap (λ k. take k ys) (omega arith)
take-append_more zero (x ∷ xs) ys h = absurd (omega arith)
take-append_more (suc n) (x ∷ xs) ys h =
    ap (λ t. x ∷ t)
      (take-append_more n xs ys (omega arith) ∙ ap (λ k. xs ++ take k ys) (omega arith))
