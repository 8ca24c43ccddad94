-- ===== src/RawFile/Distinct.antt =====
-- The numbers of the blocks of a chain.
use ftn_tananfs.Base.{ℕ, List, ◌∷◌, map}
use ftn_tananfs.Structs.{Block}

abbrev pub numbers : Block → List Block → List ℕ
numbers b cs = map (λ (c : Block). c.index) (b ∷ cs)
