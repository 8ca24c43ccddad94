-- ===== src/RawFile/Rewritten.antt =====
-- A file whose chain is rewritten from one of its blocks on.
use mathlib.Core.Path.{subst}
use ftn_tananfs.Base.{
  ℕ, IsDistinct, IsDistinct-behind, zero, suc, ◌+◌, ◌-◌, ◌*◌, ◌≤◌, ◌≡◌, refl, sym, ap, ◌∙◌, arith,
  ◌==◌, List, [], ◌∷◌, length,
}
use ftn_tananfs.Structs.{Block, null_block}
use ftn_tananfs.Block.Data.{length-overwrite}
use ftn_tananfs.Filesystem.{Filesystem}
use ftn_tananfs.RawFile.{RawByteFile}
use ftn_tananfs.RawFile.Linked.{IsChain, contents}
use ftn_tananfs.RawFile.Nth.{nth, IsFile}
use ftn_tananfs.RawFile.Distinct.{numbers}
use ftn_tananfs.RawFile.Rewriting.{Rewritten, Rewritten-behind}

pub nth-IsDistinct :
    (k : ℕ) (b : Block) (cs : List Block)
    → IsDistinct (numbers b cs)
    → IsDistinct (numbers (nth k b cs).0 (nth k b cs).1)
nth-IsDistinct zero b cs h = h
nth-IsDistinct (suc k) b [] h = h
nth-IsDistinct (suc k) b (c ∷ cs) h =
    nth-IsDistinct k c cs (IsDistinct-behind b.index (numbers c cs) h)

final : List ℕ → ℕ
final [] = 0
final (i ∷ []) = i
final (i ∷ j ∷ js) = final (j ∷ js)

final-numbers :
    (b : Block) (cs : List Block) → (nth (length cs) b cs).0.index ≡ final (numbers b cs)
unfolding final
final-numbers b [] = refl
final-numbers b (c ∷ cs) = final-numbers c cs

length-numbers : (b : Block) (cs : List Block) → length (numbers b cs) ≡ length cs + 1
length-numbers b [] = refl
length-numbers b (c ∷ cs) = let ih = length-numbers c cs in omega (arith, ih)

module _ {W : Type 0} (size : ℕ) where
  -- Where the chain is rewritten from its `k`-th block on, it is rewritten.
  pub Rewritten-nth :
      (k m : ℕ) (src : List ℕ) (fs fs' : Filesystem W) (b d' : Block) (cs ds' : List Block)
      → 8 ≤ size
      → k ≤ length cs
      → IsDistinct (numbers b cs)
      → IsChain size fs b cs
      → Rewritten size m src fs (nth k b cs).0 (nth k b cs).1 fs' d' ds'
      → (b' : Block) × (cs' : List Block) × Rewritten size
          ((size - 8) * k + m)
          src
          fs
          b
          cs
          fs'
          b'
          cs'
  Rewritten-nth zero m src fs fs' b d' cs ds' more h distinct chain r = (
    d',
    ds',
    subst (λ i. Rewritten size i src fs b cs fs' d' ds')
        (let e : m ≡ (size - 8) * 0 + m = omega arith in e) r,
  )
  Rewritten-nth (suc k) m src fs fs' b d' [] ds' more h distinct chain r = absurd (omega arith)
  Rewritten-nth (suc k) m src fs fs' b d' (c ∷ cs) ds' more h distinct
        (IsChain.link cached sized next there chain) r =
      let (c', cs', later) =
        Rewritten-nth k m src fs fs' c d' cs ds' more (omega arith)
          (IsDistinct-behind b.index (numbers c cs) distinct) chain r in
      (
        b,
        c' ∷ cs',
        subst (λ i. Rewritten size i src fs b (c ∷ cs) fs' b (c' ∷ cs'))
            (let e : size - 8 + ((size - 8) * k + m) ≡ (size - 8) * suc k + m = grind arith in e)
            (Rewritten-behind size ((size - 8) * k + m) src fs fs' b c c' cs cs' more distinct
              (IsChain.link cached sized next there chain) later),
      )

  -- The rewritten chain is that of the same file.
  pub Rewritten-IsFile :
      (here : ℕ) (src : List ℕ) (fs fs' : Filesystem W) (b b' : Block) (cs cs' : List Block)
      (file file' : RawByteFile)
      → here + length src ≤ length (contents b cs)
      → IsFile size b cs file fs
      → Rewritten size here src fs b cs fs' b' cs'
      → file'.first_block ≡ file.first_block
      → file'.last_block ≡ file.last_block
      → file'.block_count ≡ file.block_count
      → file'.size ≡ file.size
      → IsFile size b' cs' file' fs'
  Rewritten-IsFile here src fs fs' b b' cs cs' file file' fits f r e1 e2 e3 e4 =
      let first : b'.index ≡ b.index = ap (λ (t : List ℕ). elim t [ [] ↦ 0 | x ∷ xs ↦ x ]) r.same in
      let lengths : length (numbers b' cs') ≡ length (numbers b cs) = ap length r.same in
      record {
        chain = r.chain;
        there = ap (λ i. i == null_block) first ∙ f.there;
        first = e1 ∙ f.first ∙ sym first;
        last =
            e2 ∙ f.last ∙ final-numbers b cs ∙ ap final (sym r.same) ∙ sym (final-numbers b' cs');
        counts = omega (arith, e3, f.counts, lengths, length-numbers b cs, length-numbers b' cs');
        holds = omega (
          arith,
          e4,
          f.holds,
          ap length r.becomes,
          length-overwrite here src (contents b cs) fits,
        );
      }
