-- ===== src/Cursor/Regress.antt =====
-- Moving a cursor back, and to an absolute position.
use native.Mathlib.Nat.{mod-lt, mod-add-div, div-le_self, le-div_iff_mul-le, mul-le-mul_left}
use native.Mathlib.Decide.{dec_lt}
use ftn_tananfs.Base.{
  ℕ, ◌+◌, ◌-◌, ◌*◌, ◌/◌, ◌%◌, ◌^◌, ◌≤◌, ◌<◌, ◌≡◌, ◌∙◌, refl, ap, arith, lt→ltb, le→ltb-false,
  le→leb, lt→leb-false,
}
use ftn_tananfs.Outcome.{ok, panic, +u-ok, -u-ok, /u-ok, %u-ok}
use ftn_tananfs.Cursor.{BlockCursor, padded_block, padded_byte, current, regress, reset, set}
use ftn_tananfs.Cursor.Moves.{
  room, offset, IsValid, Moved, Moved-at, at_byte, at_block, padded_block-room, padded_byte_lem,
  at_byte-IsValid, at_block-IsValid, offset-at_block, advance-Moved,
}

-- What is in front of the cursor in its block.
abbrev before : BlockCursor → ℕ
before c = c.current_byte - c.block_padding_front

regress_within :
    (bytes : ℕ) (c : BlockCursor)
    → IsValid c
    → bytes < before c
    → Moved c (offset c - bytes) (regress bytes c)
unfolding regress
regress_within bytes c v h =
    rw
      (
        padded_block-room c v,
        padded_byte_lem c v,
        lt→ltb bytes (before c) h,
        -u-ok c.current_byte bytes (omega arith),
      )
      (Moved-at c (at_byte c (c.current_byte - bytes)) (offset c - bytes)
        (at_byte-IsValid c (c.current_byte - bytes) v (omega arith) (omega arith) (omega arith))
        (omega arith) (refl, refl, refl))

-- A quotient is below `k` when the number is below `k` times the divisor.
div_lt : (n p k : ℕ) → n < p * k → p * (n / p) ≤ n → n / p < k
div_lt n p k h le = elim (dec_lt (n / p) k) [
  | yes lt ↦ lt
  | no ge ↦ absurd (omega (arith, grow (omega arith)))
]
  where
    grow : k ≤ n / p → p * k ≤ p * (n / p)
    grow g = mul-le-mul_left p g

-- The distance to the end of block `j` taken off the blocks in front of it.
back_blocks :
    (p k q m x : ℕ) → q < k → m ≤ p → m + p * q ≡ x → p * (k - (q + 1)) + (p - m) ≡ p * k - x
back_blocks p k q m x h small e = omega (arith, split)
  where
    split : p * k ≡ p * (k - (q + 1)) + p * q + p
    split =
        let k_is : k ≡ k - (q + 1) + (q + 1) = omega arith in
        ap (λ (t : ℕ). p * t) k_is ∙ omega arith

regress_beyond :
    (bytes : ℕ) (c : BlockCursor)
    → IsValid c
    → before c ≤ bytes
    → bytes < offset c
    → Moved c (offset c - bytes) (regress bytes c)
unfolding regress
regress_beyond bytes c v h far =
    let over = bytes - before c in
    let q = over / room c in
    let m = over % room c in
    let pos : 0 < room c = omega arith in
    let split : m + room c * q ≡ over = mod-add-div over (room c) in
    let m_lt : m < room c = mod-lt over pos in
    let q_lt : q < c.current_block =
      div_lt over (room c) c.current_block (omega arith) (omega arith) in
    let k_le : c.current_block ≤ room c * c.current_block = grind arith in
    let sum : room c * (c.current_block - (q + 1)) + (room c - m) ≡ offset c - bytes =
      back_blocks (room c) c.current_block q m over q_lt (omega arith) split ∙ omega arith in
    let byte : c.block_size - c.block_padding_back - m ≡ c.block_padding_front + (room c - m) =
      omega arith in
    rw
      (
        padded_block-room c v,
        padded_byte_lem c v,
        le→ltb-false bytes (before c) h,
        -u-ok bytes (before c) h,
        /u-ok over (room c) pos,
        +u-ok q 1 (omega arith),
        %u-ok over (room c) pos,
        le→leb (q + 1) c.current_block (omega arith),
        -u-ok c.block_size c.block_padding_back (omega arith),
        -u-ok (c.block_size - c.block_padding_back) m (omega arith),
        byte,
      )
      (Moved-at c (at_block c (c.current_block - (q + 1)) (c.block_padding_front + (room c - m)))
        (offset c - bytes)
        (at_block-IsValid c (c.current_block - (q + 1)) (room c - m) v (omega arith) (omega arith))
        (offset-at_block c (c.current_block - (q + 1)) (room c - m) ∙ sum) (refl, refl, refl))

-- Going back by less than its position moves a cursor back by `bytes` and returns the new
-- position; the cursor stays valid and keeps its block size and paddings.
pub regress-Moved :
    (bytes : ℕ) (c : BlockCursor)
    → IsValid c
    → bytes < offset c
    → Moved c (offset c - bytes) (regress bytes c)
regress-Moved bytes c v far = elim (dec_lt bytes (before c)) [
  | yes h ↦ regress_within bytes c v h
  | no h ↦ regress_beyond bytes c v (omega arith) far
]

-- Byte 0 of the first block has no position where it is padding.
current_in_padding :
    (c : BlockCursor) → IsValid c → 0 < c.block_padding_front → current (at_block c 0 0) ≡ panic
unfolding current padded_block padded_byte
current_in_padding c v front = ground arith

-- Going back to the start of the file or further leaves byte 0 of block 0, and panics where the
-- blocks have padding at the front, as every file has: byte 0 is inside the padding.
pub regress_to_start :
    (bytes : ℕ) (c : BlockCursor)
    → IsValid c
    → 0 < c.block_padding_front
    → offset c ≤ bytes
    → bytes < 2 ^ 63
    → regress bytes c ≡ (panic, at_block c 0 0)
unfolding regress
regress_to_start bytes c v front far fits =
    let over = bytes - before c in
    let q = over / room c in
    let pos : 0 < room c = omega arith in
    let q_le : q ≤ over = div-le_self over (room c) in
    let q_ge : c.current_block ≤ q =
      (le-div_iff_mul-le {k = room c} {x = c.current_block} {y = over} pos).1 (omega arith) in
    rw (
      padded_block-room c v,
      padded_byte_lem c v,
      le→ltb-false bytes (before c) (omega arith),
      -u-ok bytes (before c) (omega arith),
      /u-ok over (room c) pos,
      +u-ok q 1 (omega arith),
      %u-ok over (room c) pos,
      lt→leb-false (q + 1) c.current_block (omega arith),
      current_in_padding c v front,
    )

-- `set` goes to the absolute position, from wherever the cursor stands.
pub set-Moved :
    (bytes : ℕ) (c : BlockCursor) → IsValid c → bytes < 2 ^ 62 → Moved c bytes (set bytes c)
unfolding set reset
set-Moved bytes c v far =
    let start : IsValid (reset c) = record {
      paddings = v.paddings;
      small = v.small;
      behind_front = omega arith;
      before_back = omega arith;
      far = omega arith;
    } in
    let zero_offset : offset (reset c) + bytes ≡ bytes = omega arith in
    let m = advance-Moved bytes (reset c) start (omega arith) in
    record {
      returned = m.returned ∙ ap ok zero_offset;
      offset_is = m.offset_is ∙ zero_offset;
      valid = m.valid;
      shape = m.shape;
    }
