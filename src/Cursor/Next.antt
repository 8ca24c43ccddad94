-- ===== src/Cursor/Next.antt =====
-- A move to the end of the data of a block leads to the start of the next one.
use native.Mathlib.Nat.{mod-add-div, div-le_self}
use ftn_tananfs.Base.{ℕ, ◌+◌, ◌-◌, ◌*◌, ◌/◌, ◌%◌, ◌^◌, ◌≤◌, ◌<◌, ◌≡◌, ap, ◌∙◌, arith}
use ftn_tananfs.Outcome.{ok}
use ftn_tananfs.Cursor.{BlockCursor, advance, current}
use ftn_tananfs.Cursor.Moves.{
  IsValid, offset, room, remaining, at_block, current_lem, advance-at_block,
}

pub advance_to_next :
    (bytes : ℕ) (c : BlockCursor)
    → IsValid c
    → remaining c ≡ bytes
    → offset c + bytes < 2 ^ 62
    → (p : ℕ) × (advance bytes c ≡ (ok p, at_block c (c.current_block + 1) c.block_padding_front))
advance_to_next bytes c v exact far =
    let over = bytes - remaining c in
    let q = over / room c in
    let m = over % room c in
    let pos : 0 < room c = omega arith in
    let split : m + room c * q ≡ over = mod-add-div over (room c) in
    let q_le : q ≤ over = div-le_self over (room c) in
    let none : q ≡ 0 = omega (arith, q_le, exact) in
    let start : m ≡ 0 = omega (arith, split, exact) in
    let k_le : c.current_block ≤ room c * c.current_block = grind arith in
    let d = at_block c (c.current_block + 1) c.block_padding_front in
    let same : at_block c (c.current_block + (q + 1)) (c.block_padding_front + m) ≡ d = λ i.
      at_block c
        (let e : c.current_block + (q + 1) ≡ c.current_block + 1 = omega (arith, none) in e i)
        (let e : c.block_padding_front + m ≡ c.block_padding_front = omega (arith, start) in e i) in
    let v' : IsValid d = record {
      paddings = v.paddings;
      small = v.small;
      behind_front = omega arith;
      before_back = omega (arith, v.paddings);
      far = omega (arith, exact, far);
    } in
    (
      offset d,
      advance-at_block bytes c v (omega (arith, exact)) far
          ∙ ap (λ x. (current x, x)) same
          ∙ ap (λ r. (r, d)) (current_lem d v'),
    )
