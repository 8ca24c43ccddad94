-- ===== src/RawFile/Nth.antt =====
-- The blocks of a chain by their numbers in the file.
use ftn_tananfs.Base.{
  ℕ, zero, suc, ◌+◌, ◌-◌, ◌*◌, ◌≤◌, ◌<◌, ◌≡◌, sym, ap, ◌∙◌, arith, ◌==◌, false, List, [], ◌∷◌, ◌++◌,
  length, drop, length-drop, drop-drop, drop-append_exact, length-append,
}
use ftn_tananfs.Structs.{Block, null_block}
use ftn_tananfs.Cursor.Moves.{offset}
use ftn_tananfs.Filesystem.{Filesystem}
use ftn_tananfs.RawFile.{RawByteFile}
use ftn_tananfs.RawFile.Linked.{cursor_at, IsChain, contents}

-- The block with the number `k` in the chain `b ∷ cs`, and those behind it
abbrev pub nth : ℕ → Block → List Block → Block × List Block
nth zero b cs = (b, cs)
nth (suc k) b [] = (b, [])
nth (suc k) b (c ∷ cs) = nth k c cs

pub length-nth :
    (k : ℕ) (b : Block) (cs : List Block) → k ≤ length cs → length (nth k b cs).1 + k ≡ length cs
length-nth zero b cs h = omega arith
length-nth (suc k) b [] h = absurd (omega arith)
length-nth (suc k) b (c ∷ cs) h = let ih = length-nth k c cs (omega arith) in omega (arith, ih)

pub offset-cursor_at : (size k m : ℕ) → offset (cursor_at size k m) ≡ (size - 8) * k + m
offset-cursor_at size k m = grind arith

module _ {W : Type 0} (size : ℕ) where
  pub nth-IsChain :
      (fs : Filesystem W) (k : ℕ) (b : Block) (cs : List Block)
      → IsChain size fs b cs
      → IsChain size fs (nth k b cs).0 (nth k b cs).1
  nth-IsChain fs zero b cs chain = chain
  nth-IsChain fs (suc k) b [] chain = chain
  nth-IsChain fs (suc k) b (c ∷ cs) (IsChain.link cached sized next there chain) =
      nth-IsChain fs k c cs chain

  pub IsChain-room :
      (fs : Filesystem W) (b : Block) (cs : List Block)
      → IsChain size fs b cs
      → size - 8 ≤ length (contents b cs)
  IsChain-room fs b [] (IsChain.end cached sized) = omega (arith, sized, length-drop {0} 8 b.bytes)
  IsChain-room fs b (c ∷ cs) (IsChain.link cached sized next there chain) =
      omega (
        arith,
        sized,
        length-drop {0} 8 b.bytes,
        length-append {0} (drop 8 b.bytes) (contents c cs),
      )

  pub length-contents :
      (fs : Filesystem W) (b : Block) (cs : List Block)
      → 8 < size
      → IsChain size fs b cs
      → length (contents b cs) ≡ (size - 8) * (length cs + 1)
  length-contents fs b [] more (IsChain.end cached sized) =
      length-drop {0} 8 b.bytes ∙ omega (arith, sized)
  length-contents fs b (c ∷ cs) more (IsChain.link cached sized next there chain) =
      let behind = length-contents fs c cs more chain in
      let front : length (drop 8 b.bytes) ≡ size - 8 =
        omega (arith, sized, length-drop {0} 8 b.bytes) in
      let sum : size - 8 + (size - 8) * (length cs + 1) ≡ (size - 8) * (suc (length cs) + 1) =
        grind arith in
      omega (arith, behind, front, sum, length-append {0} (drop 8 b.bytes) (contents c cs))

  pub drop-nth :
      (fs : Filesystem W) (k m : ℕ) (b : Block) (cs : List Block)
      → 8 < size
      → k ≤ length cs
      → IsChain size fs b cs
      → drop m (contents (nth k b cs).0 (nth k b cs).1) ≡ drop ((size - 8) * k + m) (contents b cs)
  drop-nth fs zero m b cs more h chain = ap (λ i. drop i (contents b cs)) (omega arith)
  drop-nth fs (suc k) m b [] more h chain = absurd (omega arith)
  drop-nth fs (suc k) m b (c ∷ cs) more h (IsChain.link cached sized next there chain) =
      let q = (size - 8) * k + m in
      let front : length (drop 8 b.bytes) ≡ size - 8 =
        omega (arith, sized, length-drop {0} 8 b.bytes) in
      let sum : size - 8 + q ≡ (size - 8) * suc k + m = grind arith in
      drop-nth fs k m c cs more (omega arith) chain
      ∙ sym (ap (drop q) (drop-append_exact (size - 8) (drop 8 b.bytes) (contents c cs) front))
      ∙ drop-drop q (size - 8) (drop 8 b.bytes ++ contents c cs)
      ∙ ap (λ i. drop i (drop 8 b.bytes ++ contents c cs)) sum

-- The blocks of the file are the chain `b ∷ cs`, which holds as many bytes as the file has.
pub record IsFile {W : Type 0} (size : ℕ) (b : Block) (cs : List Block) (file : RawByteFile)
    (fs : Filesystem W) : Type 0 where
  pub chain : IsChain size fs b cs
  pub there : (b.index == null_block) ≡ false
  pub first : file.first_block ≡ b.index
  pub last : file.last_block ≡ (nth (length cs) b cs).0.index
  pub counts : file.block_count ≡ length cs + 1
  pub holds : file.size ≤ length (contents b cs)
