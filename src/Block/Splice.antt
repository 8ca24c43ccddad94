-- ===== src/Block/Splice.antt =====
-- `overwrite` across the parts of a concatenation.
use mathlib.Core.List.{append-nil, append_assoc}
use ftn_tananfs.Base.{
  ℕ, zero, suc, ◌+◌, ◌-◌, ◌≤◌, ◌≡◌, refl, sym, ap, ◌∙◌, arith, List, [], ◌∷◌, ◌++◌, length, take,
  drop, length-take, take-append_less, take-append_more, drop-append_less, drop-append_add,
  take_all, drop_all, drop-drop, length-append,
}
use ftn_tananfs.Block.{overwrite}

pub drop-take : (m n : ℕ) (xs : List ℕ) → drop n (take (n + m) xs) ≡ take m (drop n xs)
drop-take m zero xs = ap (λ k. take k xs) (omega arith)
drop-take m (suc n) [] =
    ap (drop (suc n)) (take_all (suc n + m) [] (omega arith)) ∙ sym (take_all m [] (omega arith))
drop-take m (suc n) (x ∷ xs) =
    ap (λ k. drop (suc n) (take k (x ∷ xs))) (let e : suc n + m ≡ suc (n + m) = omega arith in e)
    ∙ drop-take m n xs

-- A write into the back part
pub overwrite-append_right :
    (m : ℕ) (src xs ys : List ℕ)
    → overwrite (length xs + m) src (xs ++ ys) ≡ xs ++ overwrite m src ys
overwrite-append_right m src xs ys =
    let n = length xs + m in
    let e : n + length src ≡ length xs + (m + length src) = omega arith in
    let e' : n - length xs ≡ m = omega arith in
    let front : take n (xs ++ ys) ≡ xs ++ take m ys =
      take-append_more n xs ys (omega arith) ∙ ap (λ k. xs ++ take k ys) e' in
    let back : drop (n + length src) (xs ++ ys) ≡ drop (m + length src) ys =
      ap (λ k. drop k (xs ++ ys)) e ∙ drop-append_add (length xs) (m + length src) xs ys refl in
    (λ i. front i ++ (src ++ back i))
    ∙ append_assoc xs (take m ys) (src ++ drop (m + length src) ys)

-- A write within the front part
pub overwrite-append_left :
    (m : ℕ) (src xs ys : List ℕ)
    → m + length src ≤ length xs
    → overwrite m src (xs ++ ys) ≡ overwrite m src xs ++ ys
overwrite-append_left m src xs ys h =
    (λ i.
      take-append_less m xs ys (omega arith) i
      ++ (src ++ drop-append_less (m + length src) xs ys (omega arith) i))
    ∙ ap (λ t. take m xs ++ t) (sym (append_assoc src (drop (m + length src) xs) ys))
    ∙ sym (append_assoc (take m xs) (src ++ drop (m + length src) xs) ys)

-- A write from the front part into the back part
pub overwrite-append_across :
    (m : ℕ) (src src' xs ys : List ℕ)
    → m + length src ≡ length xs
    → overwrite m (src ++ src') (xs ++ ys) ≡ overwrite m src xs ++ overwrite 0 src' ys
overwrite-append_across m src src' xs ys h =
    let total : m + length (src ++ src') ≡ length xs + length src' =
      omega (arith, length-append {0} src src') in
    let front : take m (xs ++ ys) ≡ take m xs = take-append_less m xs ys (omega arith) in
    let back : drop (m + length (src ++ src')) (xs ++ ys) ≡ drop (length src') ys =
      ap (λ k. drop k (xs ++ ys)) total ∙ drop-append_add (length xs) (length src') xs ys refl in
    let whole : src ++ drop (m + length src) xs ≡ src =
      ap (λ t. src ++ t) (drop_all (m + length src) xs (omega arith)) ∙ append-nil src in
    let zeroed : drop (0 + length src') ys ≡ drop (length src') ys =
      ap (λ k. drop k ys) (omega arith) in
    (λ i. front i ++ ((src ++ src') ++ back i))
    ∙ ap (λ t. take m xs ++ t) (append_assoc src src' (drop (length src') ys))
    ∙ sym (append_assoc (take m xs) src (src' ++ drop (length src') ys))
    ∙ (λ i. (take m xs ++ sym whole i) ++ (src' ++ sym zeroed i))

-- A write behind the first `n` bytes, seen without these
pub drop-overwrite :
    (n m : ℕ) (src xs : List ℕ)
    → n + m ≤ length xs
    → drop n (overwrite (n + m) src xs) ≡ overwrite m src (drop n xs)
drop-overwrite n m src xs h =
    let e : n + (m + length src) ≡ n + m + length src = omega arith in
    let back : drop (n + m + length src) xs ≡ drop (m + length src) (drop n xs) =
      ap (λ k. drop k xs) (sym e) ∙ sym (drop-drop (m + length src) n xs) in
    drop-append_less n (take (n + m) xs) (src ++ drop (n + m + length src) xs)
      (omega (arith, length-take {0} (n + m) xs))
    ∙ (λ i. drop-take m n xs i ++ (src ++ back i))
