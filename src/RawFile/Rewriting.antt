-- ===== src/RawFile/Rewriting.antt =====
-- What a write within the blocks of a file makes of their chain.
use ftn_tananfs.Base.{
  ℕ, IsAmiss, IsAmiss-ne, IsAmiss-behind, IsDistinct, ◌+◌, ◌-◌, ◌≤◌, ◌≡◌, ◌≢◌, refl, sym, ap, ◌∙◌,
  arith, ◌==◌, List, [], ◌∷◌, ◌++◌, length, drop, length-drop,
}
use ftn_tananfs.Outcome.{ok}
use ftn_tananfs.Structs.{Block, null_block}
use ftn_tananfs.Block.{overwrite}
use ftn_tananfs.Block.Data.{length-overwrite, get_next_block-overwrite}
use ftn_tananfs.Block.Splice.{
  drop-overwrite, overwrite-append_left, overwrite-append_across, overwrite-append_right,
}
use ftn_tananfs.Filesystem.{Filesystem}
use ftn_tananfs.Filesystem.Resident.{IsCached, IsFramed, IsFramed-trans, Stays}
use ftn_tananfs.RawFile.Linked.{IsChain, contents}
use ftn_tananfs.RawFile.Distinct.{numbers}

-- The block with bytes written over its data from byte `m` of that on
abbrev pub written : ℕ → List ℕ → Block → Block
written m src b = record b { bytes = overwrite (8 + m) src b.bytes }

module _ (size : ℕ) where
  data_of :
      (m : ℕ) (src : List ℕ) (b : Block)
      → length b.bytes ≡ size
      → 8 + m ≤ size
      → drop 8 (written m src b).bytes ≡ overwrite m src (drop 8 b.bytes)
  data_of m src b sized h = drop-overwrite 8 m src b.bytes (omega (arith, sized))

  size_of :
      (m : ℕ) (src : List ℕ) (b : Block)
      → length b.bytes ≡ size
      → 8 + m + length src ≤ size
      → length (written m src b).bytes ≡ size
  size_of m src b sized h = length-overwrite (8 + m) src b.bytes (omega (arith, sized)) ∙ sized

module _ {W : Type 0} (size : ℕ) where
  -- In `fs'`, the chain `b' ∷ cs'` has the blocks of `b ∷ cs`, with `src` written over the contents
  -- from byte `m` on, and the other blocks are as they were in `fs`.
  pub record Rewritten (m : ℕ) (src : List ℕ) (fs : Filesystem W) (b : Block) (cs : List Block)
      (fs' : Filesystem W) (b' : Block) (cs' : List Block) : Type 0 where
    pub chain : IsChain size fs' b' cs'
    pub same : numbers b' cs' ≡ numbers b cs
    pub becomes : contents b' cs' ≡ overwrite m src (contents b cs)
    pub others : (c : Block) → IsAmiss c.index (numbers b cs) → IsCached c fs → IsCached c fs'
    pub framed : IsFramed fs fs'

  -- The block with number `i` was flushed.
  abbrev pub Spares : ℕ → Filesystem W → Filesystem W → Type 0
  Spares i fs fs' = (c : Block) → c.index ≢ i → IsCached c fs → IsCached c fs'

  pub IsChain-spared :
      (i : ℕ) (fs fs' : Filesystem W) (b : Block) (cs : List Block)
      → Spares i fs fs'
      → IsAmiss i (numbers b cs)
      → IsChain size fs b cs
      → IsChain size fs' b cs
  IsChain-spared i fs fs' b [] spares (IsAmiss.one_more other rest) (IsChain.end cached sized) =
      IsChain.end (spares b (λ e. other (sym e)) cached) sized
  IsChain-spared i fs fs' b (c ∷ cs) spares (IsAmiss.one_more other rest)
        (IsChain.link cached sized next there chain) =
      IsChain.link (spares b (λ e. other (sym e)) cached) sized next there
        (IsChain-spared i fs fs' c cs spares rest chain)

  -- A write within the first block
  pub Rewritten-first :
      (m : ℕ) (src : List ℕ) (fs fs' : Filesystem W) (b : Block) (cs : List Block)
      → 8 + m + length src ≤ size
      → IsDistinct (numbers b cs)
      → IsChain size fs b cs
      → IsCached (written m src b) fs'
      → Spares b.index fs fs'
      → IsFramed fs fs'
      → Rewritten m src fs b cs fs' (written m src b) cs
  Rewritten-first m src fs fs' b [] h distinct (IsChain.end cached sized) held spares framed =
      record {
        chain = IsChain.end held (size_of size m src b sized h);
        same = refl;
        becomes = data_of size m src b sized (omega arith);
        others = λ c amiss r. spares c (IsAmiss-ne c.index b.index [] amiss) r;
        framed = framed;
      }
  Rewritten-first m src fs fs' b (c ∷ cs) h (IsDistinct.one_more amiss distinct)
        (IsChain.link cached sized next there chain) held spares framed =
      record {
        chain =
            IsChain.link held (size_of size m src b sized h)
              (get_next_block-overwrite b (8 + m) src (omega arith) (omega (arith, sized)) ∙ next)
              there (IsChain-spared b.index fs fs' c cs spares amiss chain);
        same = refl;
        becomes =
            ap (λ t. t ++ contents c cs) (data_of size m src b sized (omega arith))
            ∙ sym (
                overwrite-append_left m src (drop 8 b.bytes) (contents c cs)
                  (omega (arith, sized, length-drop {0} 8 b.bytes)));
        others = λ d other r. spares d (IsAmiss-ne d.index b.index (numbers c cs) other) r;
        framed = framed;
      }

  -- The blocks were loaded from `fs` before.
  pub Rewritten-loaded :
      (m : ℕ) (src : List ℕ) (fs fs1 fs' : Filesystem W) (b b' : Block) (cs cs' : List Block)
      → Stays fs fs1
      → Rewritten m src fs1 b cs fs' b' cs'
      → Rewritten m src fs b cs fs' b' cs'
  Rewritten-loaded m src fs fs1 fs' b b' cs cs' stays r = record {
    chain = r.chain;
    same = r.same;
    becomes = r.becomes;
    others = λ c amiss h. r.others c amiss (stays.cached c h);
    framed = IsFramed-trans stays.framed r.framed;
  }

  -- A write to the end of the first block, and on from the start of the next
  pub Rewritten-next :
      (m : ℕ) (src src' : List ℕ) (fs fs1 fs' : Filesystem W) (b c c' : Block) (cs cs' : List Block)
      → 8 + m + length src ≡ size
      → IsDistinct (numbers b (c ∷ cs))
      → IsChain size fs b (c ∷ cs)
      → IsCached (written m src b) fs1
      → Spares b.index fs fs1
      → IsFramed fs fs1
      → Rewritten 0 src' fs1 c cs fs' c' cs'
      → Rewritten m (src ++ src') fs b (c ∷ cs) fs' (written m src b) (c' ∷ cs')
  Rewritten-next m src src' fs fs1 fs' b c c' cs cs' h (IsDistinct.one_more amiss distinct)
        (IsChain.link cached sized next there chain) held spares framed rest =
      let e : c'.index ≡ c.index = ap (λ (t : List ℕ). elim t [ [] ↦ 0 | x ∷ xs ↦ x ]) rest.same in
      record {
        chain =
            IsChain.link (rest.others (written m src b) amiss held)
              (size_of size m src b sized (omega arith))
              (get_next_block-overwrite b (8 + m) src (omega arith) (omega (arith, sized))
                ∙ next
                ∙ ap ok (sym e))
              (ap (λ i. i == null_block) e ∙ there) rest.chain;
        same = ap (λ t. b.index ∷ t) rest.same;
        becomes =
            (λ i. data_of size m src b sized (omega arith) i ++ rest.becomes i)
            ∙ sym (
                overwrite-append_across m src src' (drop 8 b.bytes) (contents c cs)
                  (omega (arith, sized, length-drop {0} 8 b.bytes)));
        others = λ d other r.
            rest.others d (IsAmiss-behind d.index b.index (numbers c cs) other)
              (spares d (IsAmiss-ne d.index b.index (numbers c cs) other) r);
        framed = IsFramed-trans framed rest.framed;
      }

  -- A write behind the first block
  pub Rewritten-behind :
      (m : ℕ) (src : List ℕ) (fs fs' : Filesystem W) (b c c' : Block) (cs cs' : List Block)
      → 8 ≤ size
      → IsDistinct (numbers b (c ∷ cs))
      → IsChain size fs b (c ∷ cs)
      → Rewritten m src fs c cs fs' c' cs'
      → Rewritten (size - 8 + m) src fs b (c ∷ cs) fs' b (c' ∷ cs')
  Rewritten-behind m src fs fs' b c c' cs cs' more (IsDistinct.one_more amiss distinct)
        (IsChain.link cached sized next there chain) rest =
      let e : c'.index ≡ c.index = ap (λ (t : List ℕ). elim t [ [] ↦ 0 | x ∷ xs ↦ x ]) rest.same in
      let at : length (drop 8 b.bytes) + m ≡ size - 8 + m =
        omega (arith, sized, length-drop {0} 8 b.bytes) in
      record {
        chain =
            IsChain.link (rest.others b amiss cached) sized (next ∙ ap ok (sym e))
              (ap (λ i. i == null_block) e ∙ there) rest.chain;
        same = ap (λ t. b.index ∷ t) rest.same;
        becomes =
            ap (λ t. drop 8 b.bytes ++ t) rest.becomes
            ∙ sym (overwrite-append_right m src (drop 8 b.bytes) (contents c cs))
            ∙ ap (λ i. overwrite i src (drop 8 b.bytes ++ contents c cs)) at;
        others = λ d other r. rest.others d (IsAmiss-behind d.index b.index (numbers c cs) other) r;
        framed = rest.framed;
      }
