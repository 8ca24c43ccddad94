-- ===== src/Tests/Blocks.antt =====
-- Cursors, blocks of 16 bytes and directory entries.
use ftn_tananfs.Base.{ℕ, ◌≡◌, ◌+◌, refl, arith, List, [], ◌∷◌, ◌++◌, length, get_or, replicate}
use ftn_tananfs.Outcome.{ok, panic}
use ftn_tananfs.Structs.{Block}
use ftn_tananfs.Cursor.{
  BlockCursor, current, advance, regress, set, padded_block, padded_byte, reset,
}
use ftn_tananfs.Cursor.Moves.{IsValid, Moved, at_block}
use ftn_tananfs.Cursor.Chunks.{advance-advance}
use ftn_tananfs.Cursor.Regress.{regress-Moved, regress_to_start, set-Moved}
use ftn_tananfs.Block.{write_to_block, set_next_block, get_next_block, write_bytes}
use ftn_tananfs.Block.Data.{Wrote, write_to_block-Wrote, get_next_block-set_next_block}
use ftn_tananfs.Block.Overrun.{write_bytes-panic}
use ftn_tananfs.Word.Utf8.{is_utf8}
use ftn_tananfs.DirectoryChild.{DirectoryChild, as_bytes, from_bytes}
use ftn_tananfs.DirectoryChild.Image.{IsEntry, from_bytes-as_bytes}
use ftn_tananfs.Word.Int.{pos}
use ftn_tananfs.RawFile.{RawByteFile, SeekFrom, seek, seek_by}

-- Byte 10 of the data of block 2, in blocks of 512 bytes with 8 in front
abbrev cursor : BlockCursor
cursor = record {
  block_size = 512;
  block_padding_front = 8;
  block_padding_back = 0;
  current_block = 2;
  current_byte = 18;
}

abbrev cursor-IsValid : IsValid cursor
cursor-IsValid = record {
  paddings = omega arith;
  small = omega arith;
  behind_front = omega arith;
  before_back = omega arith;
  far = omega arith;
}

advance_run : advance 500 cursor ≡ (ok 1518, at_block cursor 3 14)
unfolding advance current padded_block padded_byte
advance_run = refl

regress_run : regress 20 cursor ≡ (ok 998, at_block cursor 1 502)
unfolding regress current padded_block padded_byte
regress_run = refl

advance-advance_example : advance 700 (advance 500 cursor).1 ≡ advance 1200 cursor
advance-advance_example = advance-advance 500 700 cursor cursor-IsValid (omega arith)

regress-Moved_example : Moved cursor 998 (regress 20 cursor)
regress-Moved_example = regress-Moved 20 cursor cursor-IsValid (omega arith)

regress_to_start_example : regress 1018 cursor ≡ (panic, at_block cursor 0 0)
regress_to_start_example =
    regress_to_start 1018 cursor cursor-IsValid (omega arith) (omega arith) (omega arith)

set-Moved_example : Moved cursor 504 (set 504 cursor)
set-Moved_example = set-Moved 504 cursor cursor-IsValid (omega arith)

abbrev block : Block
block = record { index = 4; bytes = 7 ∷ replicate 15 0 }

abbrev hello : List ℕ
hello = 104 ∷ 101 ∷ 108 ∷ 108 ∷ 111 ∷ []

write_to_block-Wrote_example :
    (out : Block) × (n : ℕ) × (write_to_block block 13 hello ≡ ok (out, n))
    × Wrote block 13 hello n out
write_to_block-Wrote_example = write_to_block-Wrote block 13 hello (omega arith) (omega arith)

get_next_block-set_next_block_example :
    (out : Block) × (set_next_block block 9 ≡ ok out)
    × (get_next_block out ≡ ok 9)
    × (out.index ≡ 4)
    × (length out.bytes ≡ 16)
    × ((i : ℕ) → get_or out.bytes (8 + i) 0 ≡ get_or block.bytes (8 + i) 0)
get_next_block-set_next_block_example =
    get_next_block-set_next_block block 9 (omega arith) (omega arith)

abbrev wrote :
    (out : Block) × (n : ℕ) × (write_to_block block 13 hello ≡ ok (out, n))
    × Wrote block 13 hello n out
wrote = write_to_block-Wrote block 13 hello (omega arith) (omega arith)

write_bytes-panic_example : write_bytes block 13 hello ≡ panic
write_bytes-panic_example =
    write_bytes-panic block 13 hello (omega arith) (omega arith) (omega arith) (omega arith)

abbrev child : DirectoryChild
child = record { inode = 300; name = hello }

child-IsEntry : IsEntry child
unfolding is_utf8
child-IsEntry = record { inode_fits = omega arith; name_fits = omega arith; name_valid = refl }

from_bytes-as_bytes_example : from_bytes (as_bytes child ++ (1 ∷ 2 ∷ [])) ≡ ok child
from_bytes-as_bytes_example = from_bytes-as_bytes child (1 ∷ 2 ∷ []) child-IsEntry

abbrev raw_file : RawByteFile
raw_file = record { first_block = 3; last_block = 5; block_count = 3; size = 1200; cursor = cursor }

-- Seeking to the end goes there, but returns 0.
seek_end_run : (seek (SeekFrom.end (pos 0)) raw_file).0 ≡ ok 0
unfolding seek seek_by set reset advance current padded_block padded_byte
seek_end_run = refl
