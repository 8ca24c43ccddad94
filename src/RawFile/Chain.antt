-- ===== src/RawFile/Chain.antt =====
-- The loop of `read` against the contents of a chain of blocks.
use mathlib.Core.List.{append-nil}
use ftn_tananfs.Base.{
  drop-drop, drop-append_less, take-append_more, drop-append_exact, take-append_exact, ℕ, zero, suc,
  ◌+◌, ◌-◌, ◌*◌, ◌^◌, ◌≤◌, ◌<◌, ◌≡◌, refl, sym, ap, ◌∙◌, arith, tests, leb, ◌==◌, true, false,
  Bool-cases, inl, inr, List, [], ◌∷◌, ◌++◌, length, take, drop, eq→==, take_all, drop_all,
  length-drop, length-take, length-append, take-append_less,
}
use ftn_tananfs.Outcome.{ok}
use ftn_tananfs.Structs.{Block}
use ftn_tananfs.Block.{read_from_block, get_next_block}
use ftn_tananfs.Cursor.Moves.{offset, advance-Moved}
use ftn_tananfs.Cursor.Next.{advance_to_next}
use ftn_tananfs.Cursor.{advance}
use ftn_tananfs.Device.{Device}
use ftn_tananfs.Filesystem.{Filesystem}
use ftn_tananfs.Filesystem.Access.{load_block}
use ftn_tananfs.Filesystem.Resident.{load-IsCached}
use ftn_tananfs.RawFile.{Opened, RawByteFile}
use ftn_tananfs.RawFile.Read.{read_rounds}
use ftn_tananfs.RawFile.Linked.{
  read_from_block_lem, cursor_at, cursor_at-IsValid, IsChain, IsChain-move, IsChain-IsCached,
  contents,
}

smaller : (a b : ℕ) → a < b → (a == b) ≡ false
smaller a b h = ground arith

module _ {W : Type 0} (device : Device W) (file : RawByteFile) (size : ℕ) where
  -- The file with the cursor moved, and a filesystem
  abbrev pub reader : ℕ → ℕ → Filesystem W → Opened W
  reader k m fs = record { object = record file { cursor = cursor_at size k m }; fs = fs }

  round_last :
      (fuel k m n p : ℕ) (b : Block) (x : ℕ) (xs filled : List ℕ) (fs : Filesystem W)
      → read_from_block b (8 + m) (x ∷ xs) ≡ ok (filled, n)
      → (advance n (cursor_at size k m)).0 ≡ ok p
      → (n == length filled) ≡ true
      → (read_rounds device (suc fuel) b (x ∷ xs) (reader k m fs)).0 ≡ ok filled
  unfolding read_rounds
  round_last fuel k m n p b x xs filled fs e1 e2 e3 = rw (e1, e2, e3) refl

  round_next :
      (fuel k m n p i : ℕ) (b c : Block) (x : ℕ) (xs filled rest : List ℕ) (fs fs' : Filesystem W)
      → read_from_block b (8 + m) (x ∷ xs) ≡ ok (filled, n)
      → advance n (cursor_at size k m) ≡ (ok p, cursor_at size (k + 1) 0)
      → (n == length filled) ≡ false
      → get_next_block b ≡ ok i
      → load_block device i false fs ≡ (ok c, fs')
      → (read_rounds device fuel c (drop n filled) (reader (k + 1) 0 fs')).0 ≡ ok rest
      → (read_rounds device (suc fuel) b (x ∷ xs) (reader k m fs)).0 ≡ ok (take n filled ++ rest)
  unfolding read_rounds
  round_next fuel k m n p i b c x xs filled rest fs fs' e1 e2 e3 e4 e5 e6 =
      rw (e1, e2, e3, e4, e5, e6) refl

  -- The round in which the rest of the buffer is filled
  last_round :
      (fuel k m : ℕ) (b : Block) (x : ℕ) (xs behind : List ℕ) (fs : Filesystem W)
      → 8 < size
      → size ≤ 4096
      → length b.bytes ≡ size
      → 8 + m + suc (length xs) ≤ size
      → size * (k + 2) < 2 ^ 62
      → (read_rounds device (suc fuel) b (x ∷ xs) (reader k m fs)).0
        ≡ ok (take (suc (length xs)) (drop m (drop 8 b.bytes ++ behind)))
  last_round fuel k m b x xs behind fs more small sized fits far =
      let buffer = x ∷ xs in
      let n = suc (length xs) in
      let read_bytes = take n (drop (8 + m) b.bytes) in
      let front : length read_bytes ≡ n =
        omega (
          arith,
          sized,
          length-take {0} n (drop (8 + m) b.bytes),
          length-drop {0} (8 + m) b.bytes,
        ) in
      let filled = read_bytes ++ drop n buffer in
      let whole : filled ≡ read_bytes =
        ap (λ t. read_bytes ++ t) (drop_all n buffer (omega arith)) ∙ append-nil read_bytes in
      let v = cursor_at-IsValid size k m more small (omega arith) (omega (arith, far)) in
      let room : (size - 8 - 0) * k ≤ size * k = grind arith in
      let moved = advance-Moved n (cursor_at size k m) v (omega (arith, room, far)) in
      round_last fuel k m n (offset (cursor_at size k m) + n) b x xs filled fs
        (read_from_block_lem b (8 + m) n buffer (omega (arith, sized)) (omega arith)
          (omega (arith, sized)) (omega arith))
        moved.returned (eq→== n (length filled) (omega (arith, front, ap length whole)))
      ∙ ap ok (
          whole
          ∙ sym (
              ap (take n) (
                drop-append_less m (drop 8 b.bytes) behind
                  (omega (arith, sized, length-drop {0} 8 b.bytes)))
              ∙ take-append_less n (drop m (drop 8 b.bytes)) behind (
                  omega
                    (arith, sized, length-drop {0} 8 b.bytes, length-drop {0} m (drop 8 b.bytes)))
              ∙ ap (take n) (drop-drop m 8 b.bytes)))

  -- Where a block of at most 4096 bytes is the `k`-th of its file and heads a chain of cached blocks
  -- of full size whose contents, from byte `m` of its data on, are at least as long as the buffer,
  -- the loop of `read` succeeds with more rounds than the buffer has bytes, and returns exactly the
  -- bytes of the concatenated contents from `m` on.
  pub read_rounds-contents :
      (fuel k m : ℕ) (b : Block) (cs : List Block) (buffer : List ℕ) (fs : Filesystem W)
      → 8 < size
      → size ≤ 4096
      → 8 + m < size
      → size * (k + length cs + 2) < 2 ^ 62
      → IsChain size fs b cs
      → length buffer + m ≤ length (contents b cs)
      → length buffer < fuel
      → (read_rounds device fuel b buffer (reader k m fs)).0
        ≡ ok (take (length buffer) (drop m (contents b cs)))
  unfolding read_rounds
  read_rounds-contents fuel k m b cs [] fs more small within far chain enough fueled = refl
  read_rounds-contents zero k m b cs (x ∷ xs) fs more small within far chain enough fueled =
      absurd (omega arith)
  read_rounds-contents (suc fuel) k m b [] (x ∷ xs) fs more small within far
        (IsChain.end cached sized) enough fueled =
      last_round fuel k m b x xs [] fs more small sized
        (omega (arith, length-drop {0} 8 b.bytes, sized, enough)) (omega (arith, far))
      ∙ ap (λ d. ok (take (suc (length xs)) (drop m d))) (append-nil (drop 8 b.bytes))
  read_rounds-contents (suc fuel) k m b (c ∷ cs) (x ∷ xs) fs more small within far
        (IsChain.link cached sized next there chain) enough fueled =
      elim (Bool-cases (leb (8 + m + suc (length xs)) size)) [
        | inl fits ↦
            last_round fuel k m b x xs (contents c cs) fs more small sized (omega tests)
              (omega (arith, far))
        | inr over ↦
            let n = size - (8 + m) in
            let buffer = x ∷ xs in
            let data_size = length-drop {0} 8 b.bytes in
            let filled = take n (drop (8 + m) b.bytes) ++ drop n buffer in
            let front : length (take n (drop (8 + m) b.bytes)) ≡ n = omega (
              arith,
              sized,
              length-take {0} n (drop (8 + m) b.bytes),
              length-drop {0} (8 + m) b.bytes,
            ) in
            let rest : drop n filled ≡ drop n buffer =
              drop-append_exact n _ (drop n buffer) front in
            let begun : take n filled ≡ take n (drop (8 + m) b.bytes) =
              take-append_exact n _ (drop n buffer) front in
            let v = cursor_at-IsValid size k m more small (omega arith) (omega (arith, far)) in
            let room : (size - 8 - 0) * k ≤ size * k = grind arith in
            let (p, e2) =
              advance_to_next n (cursor_at size k m) v (omega arith) (omega (arith, room, far)) in
            let (fs', loaded, stays) = load-IsCached device c fs (IsChain-IsCached fs c cs chain) in
            let left : length (drop n filled) ≡ suc (length xs) - n =
              ap length rest ∙ length-drop {0} n buffer in
            let ahead = drop m (drop 8 b.bytes) in
            let size_of_data : length ahead ≡ n =
              omega (arith, sized, data_size, length-drop {0} m (drop 8 b.bytes)) in
            let ih =
              read_rounds-contents fuel (k + 1) 0 c cs (drop n filled) fs' more small (omega arith)
                (omega (arith, far)) (IsChain-move size fs fs' c cs stays.cached chain)
                (omega (
                  arith,
                  left,
                  enough,
                  sized,
                  data_size,
                  length-append {0} (drop 8 b.bytes) (contents c cs),
                ))
                (omega (arith, left, fueled, within)) in
            let head : take n filled ≡ ahead =
              begun
              ∙ ap (take n) (sym (drop-drop m 8 b.bytes))
              ∙ take_all n ahead (omega (arith, size_of_data)) in
            round_next fuel k m n p c.index b c x xs filled _ fs fs'
              (read_from_block_lem b (8 + m) n buffer (omega (arith, sized)) (omega (tests, over))
                (omega (tests, over, sized)) (omega arith))
              e2
              (smaller n (length filled) (
                omega (
                  tests,
                  over,
                  front,
                  length-append {0} (take n (drop (8 + m) b.bytes)) (drop n buffer),
                  length-drop {0} n buffer,
                )))
              next loaded ih
            ∙ ap ok (
                ap (λ t. t ++ take (length (drop n filled)) (contents c cs)) head
                ∙ ap (λ j. ahead ++ take j (contents c cs))
                    (left ∙ ap (λ j. suc (length xs) - j) (sym size_of_data))
                ∙ sym (
                    ap (take (suc (length xs))) (
                      drop-append_less m (drop 8 b.bytes) (contents c cs)
                        (omega (arith, sized, data_size)))
                    ∙ take-append_more (suc (length xs)) ahead (contents c cs)
                        (omega (tests, size_of_data, over))))
      ]
