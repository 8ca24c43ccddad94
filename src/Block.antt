-- ===== src/Block.antt =====
-- The bytes of a block: src/filetypes/helpers.rs, and `write_any` and `write_bytes` of
-- src/structs/block.rs. `copy_from_slice` panics where the two slices differ in length.
pub mod Data
pub mod Overrun
pub mod Splice
use ftn_tananfs.Base.{
  ℕ, ◌+◌, ◌-◌, min, ltb, leb, ◌==◌, if◌then◌else◌, List, ◌++◌, [], length, take, drop, replicate,
}
use ftn_tananfs.Outcome.{Outcome, ok, panic, assert, ◌>>=◌, ◌>>◌, ◌+u◌, ◌-u◌}
use ftn_tananfs.Word.Bytes.{le_bytes, from_le}
use ftn_tananfs.Structs.{Block, null_block}

abbrev pub bytes_in_u64 : ℕ
bytes_in_u64 = 8

abbrev pub empty_byte_data : ℕ
empty_byte_data = 0

-- `dst` with `src` written over it from `offset` on
abbrev pub overwrite : ℕ → List ℕ → List ℕ → List ℕ
overwrite offset src dst = take offset dst ++ (src ++ drop (offset + length src) dst)

-- `dst[first..last].copy_from_slice(src)`
unfoldable pub copy_into : ℕ → ℕ → List ℕ → List ℕ → Outcome (List ℕ)
copy_into first last src dst = do
  assert (leb first last)
  assert (leb last (length dst))
  assert (length src == last - first)
  ok (overwrite first src dst)

-- `src[first..last]`
unfoldable pub slice : ℕ → ℕ → List ℕ → Outcome (List ℕ)
slice first last src = do
  assert (leb first last)
  assert (leb last (length src))
  ok (take (last - first) (drop first src))

unfoldable pub u64_from_bytes : List ℕ → Outcome ℕ
u64_from_bytes bytes = do raw ← copy_into 0 8 bytes (replicate 8 0); ok (from_le raw)

unfoldable pub empty_block : ℕ → Outcome (List ℕ)
empty_block size = copy_into 0 bytes_in_u64 (le_bytes 8 null_block) (replicate size empty_byte_data)

-- The block and the number of bytes that were cleared.
unfoldable pub empty_block_data : Block → ℕ → Outcome (Block × ℕ)
empty_block_data block start_offset = do
  empty ← empty_block (length block.bytes)
  fill ← slice start_offset (length empty) empty
  bytes ← copy_into start_offset (length block.bytes) fill block.bytes
  ok (record block { bytes = bytes }, length fill)

unfoldable pub bytes_per_block : ℕ → Outcome ℕ
bytes_per_block size = size -u bytes_in_u64

unfoldable pub set_next_block : Block → ℕ → Outcome Block
set_next_block block next = do
  bytes ← copy_into 0 bytes_in_u64 (le_bytes 8 next) block.bytes
  ok (record block { bytes = bytes })

unfoldable pub get_next_block : Block → Outcome ℕ
get_next_block block = do raw ← slice 0 bytes_in_u64 block.bytes; u64_from_bytes raw

-- The block and the number of bytes that were written.
unfoldable pub write_to_block : Block → ℕ → List ℕ → Outcome (Block × ℕ)
write_to_block block offset buffer = do
  left ← length block.bytes -u offset
  let write_bytes = min left (length buffer)
  last ← offset +u write_bytes
  src ← slice 0 write_bytes buffer
  bytes ← copy_into offset last src block.bytes
  ok (record block { bytes = bytes }, write_bytes)

-- The buffer and the number of bytes that were read.
unfoldable pub read_from_block : Block → ℕ → List ℕ → Outcome (List ℕ × ℕ)
read_from_block block offset buffer = do
  left ← length block.bytes -u offset
  let read_bytes = min left (length buffer)
  last ← offset +u read_bytes
  src ← slice offset last block.bytes
  filled ← copy_into 0 read_bytes src buffer
  ok (filled, read_bytes)

-- `write_bytes`, and `write_any` on the bytes of its value: the block, and what exceeds it.
unfoldable pub write_bytes : Block → ℕ → List ℕ → Outcome (Block × List ℕ)
write_bytes block position bytes = do
  sum ← position +u length bytes
  if ltb sum (length block.bytes)
      then (do
        written ← copy_into position sum bytes block.bytes
        ok (record block { bytes = written }, []))
      else do
        end ← sum -u length block.bytes
        src ← slice 0 end bytes
        written ← copy_into position (length block.bytes) src block.bytes
        rest ← slice end (length bytes) bytes
        ok (record block { bytes = written }, rest)
