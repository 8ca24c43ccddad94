-- ===== src/Block/Overrun.antt =====
-- `write_bytes` at the end of a block: it takes for the part that fits what exceeds the block.
use ftn_tananfs.Base.{
  ℕ, ◌+◌, ◌-◌, ◌*◌, ◌≤◌, ◌<◌, ◌≡◌, ◌≢◌, arith, List, length, take, length-take, le→ltb-false,
}
use ftn_tananfs.Outcome.{panic, word, +u-ok, -u-ok}
use ftn_tananfs.Structs.{Block}
use ftn_tananfs.Block.{copy_into, write_bytes}
use ftn_tananfs.Block.Data.{slice_front}

-- A copy from a slice of another length panics.
copy_into_mismatch :
    (first last : ℕ) (src dst : List ℕ)
    → length src ≢ last - first
    → copy_into first last src dst ≡ panic
unfolding copy_into
copy_into_mismatch first last src dst h = ground arith

-- Writing bytes that reach the end of the block or go beyond it panics, unless they are exactly
-- twice as many as fit behind the position.
pub write_bytes-panic :
    (block : Block) (position : ℕ) (bytes : List ℕ)
    → position ≤ length block.bytes
    → length block.bytes ≤ position + length bytes
    → position + length bytes < word
    → length bytes ≢ 2 * (length block.bytes - position)
    → write_bytes block position bytes ≡ panic
unfolding write_bytes
write_bytes-panic block position bytes le over fits odd =
    let end = position + length bytes - length block.bytes in
    rw (
      +u-ok position (length bytes) fits,
      le→ltb-false (position + length bytes) (length block.bytes) over,
      -u-ok (position + length bytes) (length block.bytes) over,
      slice_front end bytes (omega arith),
      copy_into_mismatch position (length block.bytes) (take end bytes) block.bytes
          (omega (arith, length-take {0} end bytes)),
    )
