-- ===== src/Base/Distinct.antt =====
-- Rows of different numbers.
use Prim.Native.Nat.{ℕ}
use mathlib.Core.List.{List, [], ◌∷◌}
use mathlib.Core.Logic.{◌≢◌}

-- `i` is not among the numbers.
pub data IsAmiss (i : ℕ) : List ℕ → Type 0 where
  none_left : IsAmiss i []
  one_more : {j : ℕ} {js : List ℕ} → i ≢ j → IsAmiss i js → IsAmiss i (j ∷ js)

pub IsAmiss-ne : (i j : ℕ) (js : List ℕ) → IsAmiss i (j ∷ js) → i ≢ j
IsAmiss-ne i j js (IsAmiss.one_more other rest) = other

pub IsAmiss-behind : (i j : ℕ) (js : List ℕ) → IsAmiss i (j ∷ js) → IsAmiss i js
IsAmiss-behind i j js (IsAmiss.one_more other rest) = rest

pub data IsDistinct : List ℕ → Type 0 where
  none_left : IsDistinct []
  one_more : {j : ℕ} {js : List ℕ} → IsAmiss j js → IsDistinct js → IsDistinct (j ∷ js)

pub IsDistinct-behind : (j : ℕ) (js : List ℕ) → IsDistinct (j ∷ js) → IsDistinct js
IsDistinct-behind j js (IsDistinct.one_more amiss rest) = rest
