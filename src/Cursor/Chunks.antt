-- ===== src/Cursor/Chunks.antt =====
-- A move forward in parts is a move by their sum.
use native.Mathlib.Nat.{lt_of_mul-lt-mul_left}
use ftn_tananfs.Base.{ℕ, ◌+◌, ◌-◌, ◌*◌, ◌^◌, ◌≤◌, ◌<◌, ◌≡◌, sym, ap, ◌∙◌, arith}
use ftn_tananfs.Outcome.{ok}
use ftn_tananfs.Cursor.{BlockCursor, advance}
use ftn_tananfs.Cursor.Moves.{IsValid, SameShape, offset, room, advance-Moved}
use ftn_tananfs.Cursor.Inside.{IsInside, advance-IsInside}

-- The bytes of a row of blocks have one block and one place in it.
block_unique : (room k m k' m' : ℕ) → m < room → m' < room → room * k + m ≡ room * k' + m' → k ≤ k'
block_unique room k m k' m' h h' e =
    let row : room * (k' + 1) ≡ room * k' + room = grind arith in
    let less : room * k < room * (k' + 1) = omega (arith, e, row) in
    omega (arith, lt_of_mul-lt-mul_left room less)

-- Two cursors of a shape that are inside of a block at the same position are the same.
inside_unique :
    (c d : BlockCursor)
    → IsValid c
    → IsValid d
    → IsInside c
    → IsInside d
    → SameShape c d
    → offset d ≡ offset c
    → d ≡ c
inside_unique c d v v' inside inside' (size, front, back) at =
    let rooms : room d ≡ room c = omega (arith, size, front, back) in
    let at' : room c * d.current_block + (d.current_byte - d.block_padding_front) ≡ offset c =
      ap (λ n. n * d.current_block + (d.current_byte - d.block_padding_front)) (sym rooms) ∙ at in
    let m_lt : c.current_byte - c.block_padding_front < room c =
      omega (arith, v.behind_front, v.paddings) in
    let n_lt : d.current_byte - d.block_padding_front < room c =
      omega (arith, v'.behind_front, v'.paddings, rooms) in
    let le = block_unique (room c) d.current_block _ c.current_block _ n_lt m_lt at' in
    let ge = block_unique (room c) c.current_block _ d.current_block _ m_lt n_lt (sym at') in
    let block : d.current_block ≡ c.current_block = omega (arith, le, ge) in
    let rows : room c * d.current_block ≡ room c * c.current_block = ap (λ k. room c * k) block in
    λ i. record {
      block_size = size i;
      block_padding_front = front i;
      block_padding_back = back i;
      current_block = block i;
      current_byte =
          (let e : d.current_byte ≡ c.current_byte =
              omega (arith, at', rows, front, v.behind_front, v'.behind_front) in
            e i);
    }

-- For a valid cursor and positions below `2 ^ 62`: to advance by some bytes and then by others
-- returns the same position, and leaves the same cursor, as to advance by their sum at once.
pub advance-advance :
    (first second : ℕ) (c : BlockCursor)
    → IsValid c
    → offset c + (first + second) < 2 ^ 62
    → advance second (advance first c).1 ≡ advance (first + second) c
advance-advance first second c v far =
    let a = advance-Moved first c v (omega (arith, far)) in
    let mid = (advance first c).1 in
    let b = advance-Moved second mid a.valid (omega (arith, a.offset_is, far)) in
    let whole = advance-Moved (first + second) c v far in
    let (s1, f1, b1) = a.shape in
    let (s2, f2, b2) = b.shape in
    let (s3, f3, b3) = whole.shape in
    let inside = advance-IsInside (first + second) c v far in
    let inside' = advance-IsInside second mid a.valid (omega (arith, a.offset_is, far)) in
    let same : offset mid + second ≡ offset c + (first + second) = omega (arith, a.offset_is) in
    let cursors : (advance second mid).1 ≡ (advance (first + second) c).1 =
      inside_unique (advance (first + second) c).1 (advance second mid).1 whole.valid b.valid inside
        inside' (s2 ∙ s1 ∙ sym s3, f2 ∙ f1 ∙ sym f3, b2 ∙ b1 ∙ sym b3)
        (b.offset_is ∙ same ∙ sym whole.offset_is) in
    λ i. ((b.returned ∙ ap ok same ∙ sym whole.returned) i, cursors i)
