-- ===== src/Bitmap.antt =====
-- src/structs/bitmap.rs: the occupancy of inodes and blocks, a bit to each, in words of 64 bits.
-- The sizes are in Structs/Size.
pub mod Bits
pub mod NextFree
pub mod Image
pub mod Free
pub mod Access
use Prim.Native.Nat.{bit_and, bit_or}
use ftn_tananfs.Base.{
  ℕ, zero, suc, ◌+◌, ◌-◌, ◌*◌, ◌/◌, ◌%◌, ◌^◌, ltb, leb, ◌==◌, if◌then◌else◌, Bool, true, false, not,
  Option, none, some, List, [], ◌∷◌, ◌++◌, length, get_elem?, set as set_elem, take, drop,
  replicate,
}
use ftn_tananfs.Error.{Error}
use ftn_tananfs.Outcome.{Outcome, ok, err, panic, or_panic, ◌>>=◌, word, ◌+u◌}
use ftn_tananfs.Outcome.Action.{Action}
use ftn_tananfs.Word.Bytes.{le_bytes, from_le}
use ftn_tananfs.Structs.{Superblock, Bitmap, null_block}
use ftn_tananfs.Structs.Size.{size_in_bytes, size_in_usize, bits_in_usize}
use ftn_tananfs.Superblock.{bitmap_region_start}

unfoldable pub empty : ℕ → ℕ → Outcome Bitmap
empty count position = do
  words ← size_in_usize count
  ok (record { bitfield = replicate words 0; count = count; position = position })

-- `Bitmap::<Inode>::new`
unfoldable pub new_inodes : Superblock → Outcome Bitmap
new_inodes s = do start ← bitmap_region_start s; empty s.inode_count start

-- `Bitmap::<Block>::new`
unfoldable pub new_blocks : Superblock → Outcome Bitmap
new_blocks s = do
  start ← bitmap_region_start s
  inode_bitmap ← size_in_bytes s.inode_count
  position ← start +u inode_bitmap
  empty s.block_count position

-- The word with the bit of `col` set, or cleared: `w | 1 << col`, `w & !(1 << col)`.
abbrev pub put_bit : Bool → ℕ → ℕ → ℕ
put_bit true col w = bit_or w (2 ^ col)
put_bit false col w = bit_and w (word - 1 - 2 ^ col)

unfoldable pub set : ℕ → Bool → Action Bitmap (Unit {0})
set index value b =
    if leb b.count index
    then (err Error.out_of_bounds, b)
    else elim (get_elem? b.bitfield (index / bits_in_usize)) [
      | none ↦ (panic, b)
      | some w ↦ (
        ok tt,
        record b {
          bitfield =
              set_elem b.bitfield (index / bits_in_usize) (put_bit value (index % bits_in_usize) w);
        },
      )
    ]

unfoldable pub get : Bitmap → ℕ → Outcome Bool
get b index =
    if index == null_block
    then err Error.null_block
    else if leb b.count index
    then err Error.out_of_bounds
    else do
      w ← or_panic (get_elem? b.bitfield (index / bits_in_usize))
      ok (not (bit_and w (2 ^ (index % bits_in_usize)) == 0))

-- The inner loop of `next_free`: `rounds` bits of the word from `bit` on.
unfoldable pub free_bit : ℕ → ℕ → ℕ → Option ℕ
free_bit zero bit w = none
free_bit (suc rounds) bit w =
    let rest = free_bit rounds (bit + 1) w in if bit_and w (2 ^ bit) == 0 then some bit else rest

-- The outer loop, over the words from number `chunk` on. Every word is searched from the same
-- bit `after_bit`.
unfoldable pub free_from : ℕ → ℕ → List ℕ → Option ℕ
free_from after_bit chunk [] = none
free_from after_bit chunk (w ∷ ws) =
    let rest = free_from after_bit (chunk + 1) ws in
    let here : Option ℕ = elim (free_bit (bits_in_usize - after_bit) after_bit w) [
      | none ↦ rest
      | some bit ↦ some (chunk * bits_in_usize + bit)
    ] in
    if w == word - 1 then rest else here

unfoldable pub next_free : Bitmap → ℕ → Option ℕ
next_free b after =
    free_from (after % bits_in_usize) (after / bits_in_usize)
      (drop (after / bits_in_usize) b.bitfield)

-- The loop of `load_content`: each word is overwritten from the next 8 bytes of the buffer.
unfoldable pub load_chunks : ℕ → List ℕ → List ℕ → Outcome (List ℕ)
load_chunks zero ws buffer = ok ws
load_chunks (suc n) [] buffer = panic
load_chunks (suc n) (w ∷ ws) buffer =
    let rest = load_chunks n ws (drop 8 buffer) in
    if ltb (length buffer) 8 then panic else do words ← rest; ok (from_le (take 8 buffer) ∷ words)

-- The loop of `flush_content`: each word is copied over the next 8 bytes of the buffer.
unfoldable pub flush_chunks : ℕ → List ℕ → List ℕ → Outcome (List ℕ)
flush_chunks zero ws buffer = ok buffer
flush_chunks (suc n) [] buffer = panic
flush_chunks (suc n) (w ∷ ws) buffer =
    let rest = flush_chunks n ws (drop 8 buffer) in
    if ltb (length buffer) 8 then panic else do bytes ← rest; ok (le_bytes 8 w ++ bytes)
