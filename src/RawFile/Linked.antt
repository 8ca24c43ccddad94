-- ===== src/RawFile/Linked.antt =====
-- src/filetypes/raw_file.rs: the blocks of a file as a chain in the cache, and what one read of a
-- block copies.
use ftn_tananfs.Base.{
  ℕ, ◌+◌, ◌-◌, ◌*◌, ◌^◌, ◌≤◌, ◌<◌, ◌≡◌, ◌==◌, false, ap, arith, List, [], ◌∷◌, ◌++◌, length, take,
  drop, min, length-drop, length-take,
}
use ftn_tananfs.Outcome.{ok, +u-ok, -u-ok, word}
use ftn_tananfs.Structs.{Block, null_block}
use ftn_tananfs.Block.{read_from_block, get_next_block}
use ftn_tananfs.Block.Data.{slice-ok, copy_into-ok}
use ftn_tananfs.Cursor.Moves.{IsValid, offset}
use ftn_tananfs.Cursor.{BlockCursor}
use ftn_tananfs.Filesystem.{Filesystem}
use ftn_tananfs.Filesystem.Resident.{IsCached}

shorter : (a n : ℕ) → a + n - a ≡ n
shorter a n = omega arith

pub read_from_block_lem :
    (b : Block) (offset n : ℕ) (buffer : List ℕ)
    → offset + n ≤ length b.bytes
    → n ≤ length buffer
    → min (length b.bytes - offset) (length buffer) ≡ n
    → offset + n < word
    → read_from_block b offset buffer ≡ ok (take n (drop offset b.bytes) ++ drop n buffer, n)
unfolding read_from_block
read_from_block_lem b offset n buffer fits within least small =
    rw (-u-ok (length b.bytes) offset (omega arith), least, +u-ok offset n small)
      (rw (slice-ok offset (offset + n) b.bytes (omega arith) fits, shorter offset n)
        (let src = take n (drop offset b.bytes) in
          let size : length src ≡ n =
            omega
              (arith, length-take {0} n (drop offset b.bytes), length-drop {0} offset b.bytes) in
          rw (copy_into-ok 0 n src buffer (omega arith) within (omega arith))
            (ap (λ k. ok (src ++ drop k buffer, n)) (omega arith))))

-- A cursor at byte `m` of the data of block `k`
abbrev pub cursor_at : ℕ → ℕ → ℕ → BlockCursor
cursor_at size k m = record {
  block_size = size;
  block_padding_front = 8;
  block_padding_back = 0;
  current_block = k;
  current_byte = 8 + m;
}

pub cursor_at-IsValid :
    (size k m : ℕ)
    → 8 < size
    → size ≤ 4096
    → 8 + m ≤ size
    → size * (k + 1) < 2 ^ 62
    → IsValid (cursor_at size k m)
cursor_at-IsValid size k m more small within far = record {
  paddings = omega arith;
  small = omega arith;
  behind_front = omega arith;
  before_back = omega arith;
  far = let le : (size - 8 - 0) * k ≤ size * k = grind arith in omega (arith, le, far);
}

module _ {W : Type 0} (size : ℕ) where
  -- The blocks `b ∷ cs` are in the cache, of the given size, and each leads to the next, whose
  -- number is not the one for no block.
  pub data IsChain (fs : Filesystem W) : Block → List Block → Type 0 where
    end : {b : Block} → IsCached b fs → length b.bytes ≡ size → IsChain fs b []
    link :
        {b c : Block} {cs : List Block}
        → IsCached b fs
        → length b.bytes ≡ size
        → get_next_block b ≡ ok c.index
        → (c.index == null_block) ≡ false
        → IsChain fs c cs
        → IsChain fs b (c ∷ cs)

  pub IsChain-move :
      (fs fs' : Filesystem W) (b : Block) (cs : List Block)
      → ((c : Block) → IsCached c fs → IsCached c fs')
      → IsChain fs b cs
      → IsChain fs' b cs
  IsChain-move fs fs' b [] stay (IsChain.end cached sized) = IsChain.end (stay b cached) sized
  IsChain-move fs fs' b (c ∷ cs) stay (IsChain.link cached sized next there chain) =
      IsChain.link (stay b cached) sized next there (IsChain-move fs fs' c cs stay chain)

module _ {W : Type 0} {size : ℕ} where
  pub IsChain-IsCached :
      (fs : Filesystem W) (b : Block) (cs : List Block) → IsChain size fs b cs → IsCached b fs
  IsChain-IsCached fs b [] (IsChain.end cached sized) = cached
  IsChain-IsCached fs b (c ∷ cs) (IsChain.link cached sized next there chain) = cached

-- The data of a chain, without the number of the next block that each begins with
abbrev pub contents : Block → List Block → List ℕ
contents b [] = drop 8 b.bytes
contents b (c ∷ cs) = drop 8 b.bytes ++ contents c cs
