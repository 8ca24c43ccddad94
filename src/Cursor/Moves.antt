-- ===== src/Cursor/Moves.antt =====
-- What the moves of a cursor do to its position in the file.
use native.Mathlib.Nat.{mod-lt, mod-add-div, div-le_self}
use native.Mathlib.Decide.{dec_lt}
use ftn_tananfs.Base.{
  ℕ, ◌+◌, ◌-◌, ◌*◌, ◌/◌, ◌%◌, ◌^◌, ◌≤◌, ◌<◌, ◌≡◌, refl, arith, ◌∙◌, lt→ltb, le→ltb-false,
}
use ftn_tananfs.Outcome.{Outcome, ok, +u-ok, -u-ok, /u-ok, %u-ok}
use ftn_tananfs.Cursor.{BlockCursor, padded_block, padded_byte, current, position, advance}

-- The data bytes of a block, and the position in the file that a cursor stands for.
abbrev pub room : BlockCursor → ℕ
room c = c.block_size - c.block_padding_front - c.block_padding_back

abbrev pub offset : BlockCursor → ℕ
offset c = room c * c.current_block + (c.current_byte - c.block_padding_front)

-- The paddings leave room, the byte is within the data of its block or just behind it, and the
-- numbers are far from overflow.
pub record IsValid (c : BlockCursor) : Type 0 where
  pub paddings : c.block_padding_front + c.block_padding_back < c.block_size
  pub small : c.block_size ≤ 2 ^ 32
  pub behind_front : c.block_padding_front ≤ c.current_byte
  pub before_back : c.current_byte + c.block_padding_back ≤ c.block_size
  pub far : offset c < 2 ^ 62

abbrev pub SameShape : BlockCursor → BlockCursor → Type 0
SameShape c d =
    (d.block_size ≡ c.block_size)
    × (d.block_padding_front ≡ c.block_padding_front)
    × (d.block_padding_back ≡ c.block_padding_back)

pub current_lem : (c : BlockCursor) → IsValid c → current c ≡ ok (offset c)
unfolding current padded_block padded_byte
current_lem c v = ground arith

-- For a valid cursor, `position` returns the number of data bytes in front of the cursor: those of
-- the blocks before its own and those of its block.
pub position-current : (c : BlockCursor) → IsValid c → position c ≡ ok (offset c)
unfolding position padded_block padded_byte
position-current c v = ground arith

-- What is left of the block behind the cursor.
abbrev pub remaining : BlockCursor → ℕ
remaining c = c.block_size - (c.current_byte + c.block_padding_back)

-- The cursors that a move ends at: in the same block, or some blocks away.
abbrev pub at_byte : BlockCursor → ℕ → BlockCursor
at_byte c byte = record c { current_byte = byte }

abbrev pub at_block : BlockCursor → ℕ → ℕ → BlockCursor
at_block c block byte = record c { current_block = block; current_byte = byte }

-- What a move to position `p` comes to.
pub record Moved (c : BlockCursor) (p : ℕ) (out : Outcome ℕ × BlockCursor) : Type 0 where
  pub returned : out.0 ≡ ok p
  pub offset_is : offset out.1 ≡ p
  pub valid : IsValid out.1
  pub shape : SameShape c out.1

-- The position of `at_block`, for a byte `m` into the data of block `k`.
pub offset-at_block :
    (c : BlockCursor) (k m : ℕ) → offset (at_block c k (c.block_padding_front + m)) ≡ room c * k + m
offset-at_block c k m = omega arith

pub padded_block-room : (c : BlockCursor) → IsValid c → padded_block c ≡ ok (room c)
unfolding padded_block
padded_block-room c v = ground arith

pub padded_byte_lem :
    (c : BlockCursor) → IsValid c → padded_byte c ≡ ok (c.current_byte - c.block_padding_front)
unfolding padded_byte
padded_byte_lem c v = ground arith

pub at_byte-IsValid :
    (c : BlockCursor) (byte : ℕ)
    → IsValid c
    → c.block_padding_front ≤ byte
    → byte + c.block_padding_back ≤ c.block_size
    → offset (at_byte c byte) < 2 ^ 62
    → IsValid (at_byte c byte)
at_byte-IsValid c byte v lo hi far = record {
  paddings = v.paddings;
  small = v.small;
  behind_front = lo;
  before_back = hi;
  far = far;
}

pub at_block-IsValid :
    (c : BlockCursor) (k m : ℕ)
    → IsValid c
    → m ≤ room c
    → room c * k + m < 2 ^ 62
    → IsValid (at_block c k (c.block_padding_front + m))
at_block-IsValid c k m v hi far = record {
  paddings = v.paddings;
  small = v.small;
  behind_front = omega arith;
  before_back = omega (arith, v.paddings);
  far = omega (arith, offset-at_block c k m);
}

-- A move that ended at the valid cursor `d`.
pub Moved-at :
    (c d : BlockCursor) (p : ℕ)
    → IsValid d
    → offset d ≡ p
    → SameShape c d
    → Moved c p (current d, d)
Moved-at c d p v e shape = record {
  returned = rw e at (current_lem d v);
  offset_is = e;
  valid = v;
  shape = shape;
}

-- Where `advance` ends: in its own block, or some blocks further, where the data begins again
pub advance-at_byte :
    (bytes : ℕ) (c : BlockCursor)
    → IsValid c
    → bytes < remaining c
    → advance bytes c ≡ let d = at_byte c (c.current_byte + bytes) in (current d, d)
unfolding advance
advance-at_byte bytes c v h =
    rw
      (
        padded_block-room c v,
        +u-ok c.current_byte c.block_padding_back (omega arith),
        -u-ok c.block_size (c.current_byte + c.block_padding_back) (omega arith),
        lt→ltb bytes (remaining c) h,
        +u-ok c.current_byte bytes (omega arith),
      )
      refl

abbrev pub blocks_over : ℕ → BlockCursor → ℕ
blocks_over bytes c = (bytes - remaining c) / room c

abbrev pub bytes_over : ℕ → BlockCursor → ℕ
bytes_over bytes c = (bytes - remaining c) % room c

pub advance-at_block :
    (bytes : ℕ) (c : BlockCursor)
    → IsValid c
    → remaining c ≤ bytes
    → offset c + bytes < 2 ^ 62
    → let d =
        at_block c
          (c.current_block + (blocks_over bytes c + 1))
          (c.block_padding_front + bytes_over bytes c) in
      advance bytes c ≡ (current d, d)
unfolding advance
advance-at_block bytes c v h far =
    let over = bytes - remaining c in
    let q = over / room c in
    let m = over % room c in
    let pos : 0 < room c = omega arith in
    let m_lt : m < room c = mod-lt over pos in
    let q_le : q ≤ over = div-le_self over (room c) in
    let k_le : c.current_block ≤ room c * c.current_block = grind arith in
    rw
      (
        padded_block-room c v,
        +u-ok c.current_byte c.block_padding_back (omega arith),
        -u-ok c.block_size (c.current_byte + c.block_padding_back) (omega arith),
        le→ltb-false bytes (remaining c) h,
        -u-ok bytes (remaining c) h,
        /u-ok over (room c) pos,
        +u-ok q 1 (omega arith),
        %u-ok over (room c) pos,
        +u-ok c.current_block (q + 1) (omega arith),
        +u-ok c.block_padding_front m (omega arith),
      )
      refl

advance_within :
    (bytes : ℕ) (c : BlockCursor)
    → IsValid c
    → bytes < remaining c
    → offset c + bytes < 2 ^ 62
    → Moved c (offset c + bytes) (advance bytes c)
advance_within bytes c v h far = rw (advance-at_byte bytes c v h) (
    Moved-at c (at_byte c (c.current_byte + bytes)) (offset c + bytes)
      (at_byte-IsValid c (c.current_byte + bytes) v (omega arith) (omega arith) (omega arith))
      (omega arith) (refl, refl, refl))

advance_beyond :
    (bytes : ℕ) (c : BlockCursor)
    → IsValid c
    → remaining c ≤ bytes
    → offset c + bytes < 2 ^ 62
    → Moved c (offset c + bytes) (advance bytes c)
advance_beyond bytes c v h far =
    let over = bytes - remaining c in
    let q = blocks_over bytes c in
    let m = bytes_over bytes c in
    let pos : 0 < room c = omega arith in
    let split : m + room c * q ≡ over = mod-add-div over (room c) in
    let m_lt : m < room c = mod-lt over pos in
    let sum : room c * (c.current_block + (q + 1)) + m ≡ offset c + bytes = omega arith in
    rw (advance-at_block bytes c v h far) (
      Moved-at c (at_block c (c.current_block + (q + 1)) (c.block_padding_front + m))
        (offset c + bytes)
        (at_block-IsValid c (c.current_block + (q + 1)) m v (omega arith) (omega arith))
        (offset-at_block c (c.current_block + (q + 1)) m ∙ sum) (refl, refl, refl))

-- Advancing a cursor by `bytes` moves its position in the file by as much and returns the new
-- position; the cursor stays valid and keeps its block size and paddings. The sum is to be below
-- `2 ^ 62`.
pub advance-Moved :
    (bytes : ℕ) (c : BlockCursor)
    → IsValid c
    → offset c + bytes < 2 ^ 62
    → Moved c (offset c + bytes) (advance bytes c)
advance-Moved bytes c v far = elim (dec_lt bytes (remaining c)) [
  | yes h ↦ advance_within bytes c v h far
  | no h ↦ advance_beyond bytes c v (omega arith) far
]
