-- ===== src/RawFile/WriteRounds.antt =====
-- The loop of `write` on a chain of blocks in the cache.
use mathlib.Core.Path.{subst}
use ftn_tananfs.Base.{
  ℕ, IsDistinct, IsDistinct-behind, zero, suc, ◌+◌, ◌-◌, ◌*◌, ◌^◌, ◌≤◌, ◌<◌, ◌≡◌, refl, ap, ◌∙◌,
  arith, tests, leb, ◌==◌, true, false, Bool-cases, inl, inr, List, [], ◌∷◌, length, take, drop,
  length-drop, length-take, take_all, take-append-drop, eq→==, ne→==-false, length-append,
}
use ftn_tananfs.Outcome.{ok}
use ftn_tananfs.Structs.{Block, null_block}
use ftn_tananfs.Block.{get_next_block, write_to_block}
use ftn_tananfs.Block.Data.{write_to_block-ok, get_next_block-overwrite}
use ftn_tananfs.Cursor.{BlockCursor, advance}
use ftn_tananfs.Cursor.Moves.{IsValid, offset, advance-Moved}
use ftn_tananfs.Cursor.Next.{advance_to_next}
use ftn_tananfs.Device.{Device}
use ftn_tananfs.Filesystem.{Filesystem}
use ftn_tananfs.Filesystem.Access.{load_block, flush_block}
use ftn_tananfs.Filesystem.Quiet.{IsQuiet, IsQuiet-framed, flush_block-quiet}
use ftn_tananfs.Filesystem.Resident.{load-IsCached, IsFramed-trans}
use ftn_tananfs.RawFile.{Opened, RawByteFile}
use ftn_tananfs.RawFile.Write.{write_rounds, next_or_append}
use ftn_tananfs.RawFile.Linked.{
  cursor_at, cursor_at-IsValid, IsChain, IsChain-move, IsChain-IsCached, contents,
}
use ftn_tananfs.RawFile.Chain.{reader}
use ftn_tananfs.RawFile.Nth.{offset-cursor_at}
use ftn_tananfs.RawFile.Distinct.{numbers}
use ftn_tananfs.RawFile.Rewriting.{
  Rewritten, IsChain-spared, written, Rewritten-first, Rewritten-next, Rewritten-loaded,
}

module _ {W : Type 0} (device : Device W) (file : RawByteFile) (size : ℕ) where
  round_last :
      (fuel k m n p : ℕ) (b b' : Block) (x : ℕ) (xs : List ℕ) (cursor : BlockCursor)
      (fs : Filesystem W)
      → write_to_block b (8 + m) (x ∷ xs) ≡ ok (b', n)
      → advance n (cursor_at size k m) ≡ (ok p, cursor)
      → (n == length (x ∷ xs)) ≡ true
      → write_rounds device (suc fuel) b (x ∷ xs) (reader device file size k m fs)
        ≡ (ok b', record { object = record file { cursor = cursor }; fs = fs })
  unfolding write_rounds
  round_last fuel k m n p b b' x xs cursor fs e1 e2 e3 = rw (e1, e2, e3) refl

  round_next :
      (fuel k m n p i : ℕ) (b b' c d : Block) (x : ℕ) (xs : List ℕ) (fs fs1 fs2 : Filesystem W)
      (o : Opened W)
      → write_to_block b (8 + m) (x ∷ xs) ≡ ok (b', n)
      → advance n (cursor_at size k m) ≡ (ok p, cursor_at size (k + 1) 0)
      → (n == length (x ∷ xs)) ≡ false
      → flush_block device b' fs ≡ (ok tt, fs1)
      → get_next_block b' ≡ ok i
      → (i == null_block) ≡ false
      → load_block device i false fs1 ≡ (ok c, fs2)
      → write_rounds device fuel c (drop n (x ∷ xs)) (reader device file size (k + 1) 0 fs2)
        ≡ (ok d, o)
      → write_rounds device (suc fuel) b (x ∷ xs) (reader device file size k m fs) ≡ (ok d, o)
  unfolding write_rounds next_or_append
  round_next fuel k m n p i b b' c d x xs fs fs1 fs2 o e1 e2 e3 e4 e5 e6 e7 e8 =
      rw (e1, e2, e3, e4, e5, e6, e7, e8) refl

  -- The loop and the flush of the block that it ends with, and what they came to
  pub record Ran (fuel k m : ℕ) (b : Block) (cs : List Block) (buffer : List ℕ) (fs : Filesystem W)
      : Type 0 where
    pub last : Block
    pub cursor : BlockCursor
    pub ended : Filesystem W
    pub flushed : Filesystem W
    pub first : Block
    pub others : List Block
    pub loop :
        write_rounds device fuel b buffer (reader device file size k m fs)
        ≡ (ok last, record { object = record file { cursor = cursor }; fs = ended })
    pub flush : flush_block device last ended ≡ (ok tt, flushed)
    pub rewritten : Rewritten size m buffer fs b cs flushed first others
    pub valid : IsValid cursor
    pub at : offset cursor ≡ offset (cursor_at size k m) + length buffer

  -- The round that writes the rest of the buffer
  last_round :
      (fuel k m : ℕ) (b : Block) (cs : List Block) (x : ℕ) (xs : List ℕ) (fs : Filesystem W)
      → 8 < size
      → size ≤ 4096
      → length b.bytes ≡ size
      → 8 + m + suc (length xs) ≤ size
      → size * (k + 2) < 2 ^ 62
      → IsChain size fs b cs
      → IsDistinct (numbers b cs)
      → IsQuiet device fs
      → Ran (suc fuel) k m b cs (x ∷ xs) fs
  last_round fuel k m b cs x xs fs more small sized fits far chain distinct quiet =
      let buffer = x ∷ xs in
      let n = suc (length xs) in
      let src = take n buffer in
      let whole : src ≡ buffer = take_all n buffer (omega arith) in
      let b' = written m src b in
      let v = cursor_at-IsValid size k m more small (omega arith) (omega (arith, far)) in
      let room : (size - 8 - 0) * k ≤ size * k = grind arith in
      let moved = advance-Moved n (cursor_at size k m) v (omega (arith, room, far)) in
      let (fs', run, held, spares, framed) =
        flush_block-quiet device b' fs quiet (IsChain-IsCached fs b cs chain).used in
      record {
        last = b';
        cursor = (advance n (cursor_at size k m)).1;
        ended = fs;
        flushed = fs';
        first = b';
        others = cs;
        loop =
            round_last fuel k m n (offset (cursor_at size k m) + n) b b' x xs _ fs
              (write_to_block-ok b (8 + m) n buffer (omega (arith, sized))
                (omega (arith, sized, small)) (omega (arith, sized)))
              (ap (λ r. (r, (advance n (cursor_at size k m)).1)) moved.returned)
              (eq→== n (length buffer) (omega arith));
        flush = run;
        rewritten =
            subst (λ t. Rewritten size m t fs b cs fs' b' cs) whole
              (Rewritten-first size m src fs fs' b cs (omega (arith, fits, ap length whole))
                distinct chain held spares framed);
        valid = moved.valid;
        at = moved.offset_is;
      }

  -- A round that fills its block, with the rounds behind it
  next_round :
      (fuel k m : ℕ) (b c : Block) (cs : List Block) (x : ℕ) (xs : List ℕ) (fs : Filesystem W)
      → 8 < size
      → size ≤ 4096
      → 8 + m < size
      → size < 8 + m + suc (length xs)
      → size * (k + 2) < 2 ^ 62
      → IsChain size fs b (c ∷ cs)
      → IsDistinct (numbers b (c ∷ cs))
      → IsQuiet device fs
      → ((fs' : Filesystem W)
          → IsChain size fs' c cs
          → IsQuiet device fs'
          → Ran fuel (k + 1) 0 c cs (drop (size - (8 + m)) (x ∷ xs)) fs')
      → Ran (suc fuel) k m b (c ∷ cs) (x ∷ xs) fs
  next_round fuel k m b c cs x xs fs more small within over far
        (IsChain.link cached sized next there chain) (IsDistinct.one_more amiss distinct) quiet
        later =
      let n = size - (8 + m) in
      let buffer = x ∷ xs in
      let src = take n buffer in
      let len : length src ≡ n = omega (arith, length-take {0} n buffer) in
      let b' = written m src b in
      let v = cursor_at-IsValid size k m more small (omega arith) (omega (arith, far)) in
      let room : (size - 8 - 0) * k ≤ size * k = grind arith in
      let (p, moved) =
        advance_to_next n (cursor_at size k m) v (omega arith) (omega (arith, room, far)) in
      let (fs1, run, held, spares, framed) = flush_block-quiet device b' fs quiet cached.used in
      let chain1 = IsChain-spared size b.index fs fs1 c cs spares amiss chain in
      let (fs2, loaded, stays) = load-IsCached device c fs1 (IsChain-IsCached fs1 c cs chain1) in
      let chain2 = IsChain-move size fs1 fs2 c cs stays.cached chain1 in
      let r =
        later fs2 chain2
          (IsQuiet-framed device fs fs2 (IsFramed-trans framed stays.framed) quiet) in
      let row : (size - 8) * (k + 1) ≡ (size - 8) * k + (size - 8) = grind arith in
      let front : offset (cursor_at size (k + 1) 0) ≡ offset (cursor_at size k m) + n =
        omega (arith, row, offset-cursor_at size (k + 1) 0, offset-cursor_at size k m) in
      record {
        last = r.last;
        cursor = r.cursor;
        ended = r.ended;
        flushed = r.flushed;
        first = b';
        others = r.first ∷ r.others;
        loop =
            round_next fuel k m n p c.index b b' c r.last x xs fs fs1 fs2 _
              (write_to_block-ok b (8 + m) n buffer (omega (arith, sized))
                (omega (arith, sized, small)) (omega (arith, sized)))
              moved (ne→==-false n (length buffer) (λ e. absurd (omega (arith, e)))) run
              (get_next_block-overwrite b (8 + m) src (omega arith) (omega (arith, sized, len))
                ∙ next)
              there loaded r.loop;
        flush = r.flush;
        rewritten =
            subst (λ t. Rewritten size m t fs b (c ∷ cs) r.flushed b' (r.first ∷ r.others))
              (take-append-drop {0} n buffer)
              (Rewritten-next size m src (drop n buffer) fs fs1 r.flushed b c r.first cs r.others
                (omega (arith, len)) (IsDistinct.one_more amiss distinct)
                (IsChain.link cached sized next there chain) held spares framed
                (Rewritten-loaded size 0 (drop n buffer) fs1 fs2 r.flushed c r.first cs r.others
                  stays r.rewritten));
        valid = r.valid;
        at = omega (arith, r.at, front, length-drop {0} n buffer);
      }

  -- Where a block of at most 4096 bytes is the `k`-th of its file and heads a chain of different
  -- cached blocks of full size whose contents, from byte `m` on, have room for the buffer, and no flush is
  -- due, the loop of `write` succeeds with more rounds than the buffer has bytes, and writes the
  -- buffer over the contents from `m` on.
  pub write_rounds-Ran :
      (fuel k m : ℕ) (b : Block) (cs : List Block) (buffer : List ℕ) (fs : Filesystem W)
      → 8 < size
      → size ≤ 4096
      → 8 + m < size
      → size * (k + length cs + 2) < 2 ^ 62
      → IsChain size fs b cs
      → IsDistinct (numbers b cs)
      → IsQuiet device fs
      → length buffer + m ≤ length (contents b cs)
      → 0 < length buffer
      → length buffer < fuel
      → Ran fuel k m b cs buffer fs
  write_rounds-Ran fuel k m b cs [] fs more small within far chain distinct quiet enough some_left
        fueled =
      absurd (omega arith)
  write_rounds-Ran zero k m b cs (x ∷ xs) fs more small within far chain distinct quiet enough
        some_left fueled =
      absurd (omega arith)
  write_rounds-Ran (suc fuel) k m b [] (x ∷ xs) fs more small within far (IsChain.end cached sized)
        distinct quiet enough some_left fueled =
      last_round fuel k m b [] x xs fs more small sized
        (omega (arith, length-drop {0} 8 b.bytes, sized, enough)) (omega (arith, far))
        (IsChain.end cached sized) distinct quiet
  write_rounds-Ran (suc fuel) k m b (c ∷ cs) (x ∷ xs) fs more small within far
        (IsChain.link cached sized next there chain) distinct quiet enough some_left fueled =
      elim (Bool-cases (leb (8 + m + suc (length xs)) size)) [
        | inl fits ↦
            last_round fuel k m b (c ∷ cs) x xs fs more small sized (omega tests)
              (omega (arith, far)) (IsChain.link cached sized next there chain) distinct quiet
        | inr over ↦
            let data_size = length-drop {0} 8 b.bytes in
            next_round fuel k m b c cs x xs fs more small within (omega tests) (omega (arith, far))
              (IsChain.link cached sized next there chain) distinct quiet
              (λ fs' chain' quiet'.
                write_rounds-Ran fuel (k + 1) 0 c cs (drop (size - (8 + m)) (x ∷ xs)) fs' more small
                  (omega arith) (omega (arith, far)) chain'
                  (IsDistinct-behind b.index (numbers c cs) distinct) quiet'
                  (omega (
                    arith,
                    enough,
                    sized,
                    data_size,
                    length-drop {0} (size - (8 + m)) (x ∷ xs),
                    length-append {0} (drop 8 b.bytes) (contents c cs),
                  ))
                  (omega (tests, over, length-drop {0} (size - (8 + m)) (x ∷ xs)))
                  (omega (arith, fueled, within, length-drop {0} (size - (8 + m)) (x ∷ xs))))
      ]
