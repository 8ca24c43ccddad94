-- ===== src/Cursor/Inside.antt =====
-- A move forward ends inside of a block, never just behind its data.
use native.Mathlib.Nat.{mod-lt}
use native.Mathlib.Decide.{dec_lt}
use ftn_tananfs.Base.{ℕ, ◌+◌, ◌-◌, ◌^◌, ◌<◌, arith}
use ftn_tananfs.Cursor.{BlockCursor, advance, set, reset}
use ftn_tananfs.Cursor.Moves.{
  IsValid, offset, remaining, room, advance-at_byte, advance-at_block, bytes_over,
}

abbrev pub IsInside : BlockCursor → Type 0
IsInside c = c.current_byte + c.block_padding_back < c.block_size

pub advance-IsInside :
    (bytes : ℕ) (c : BlockCursor)
    → IsValid c
    → offset c + bytes < 2 ^ 62
    → IsInside (advance bytes c).1
advance-IsInside bytes c v far = elim (dec_lt bytes (remaining c)) [
  | yes h ↦ rw (advance-at_byte bytes c v h) (omega arith)
  | no h ↦
      let pos : 0 < room c = omega arith in
      let m_lt : bytes_over bytes c < room c = mod-lt (bytes - remaining c) pos in
      rw (advance-at_block bytes c v (omega arith) far) (omega (arith, m_lt, v.paddings))
]

pub set-IsInside :
    (bytes : ℕ) (c : BlockCursor) → IsValid c → bytes < 2 ^ 62 → IsInside (set bytes c).1
unfolding set reset
set-IsInside bytes c v far =
    let start : IsValid (reset c) = record {
      paddings = v.paddings;
      small = v.small;
      behind_front = omega arith;
      before_back = omega arith;
      far = omega arith;
    } in
    advance-IsInside bytes (reset c) start (omega arith)
