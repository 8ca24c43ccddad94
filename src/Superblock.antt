-- ===== src/Superblock.antt =====
-- src/structs/superblock.rs: where the regions of the filesystem lie on the device.
pub mod Layout
pub mod Regions
pub mod Formatted
pub mod Positions
use ftn_tananfs.Base.{
  ℕ, ◌+◌, ◌-◌, ◌*◌, ◌/◌, ◌%◌, ◌^◌, ltb, leb, ◌==◌, if◌then◌else◌, replicate, List,
}
use ftn_tananfs.Error.{Error}
use ftn_tananfs.Outcome.{Outcome, ok, err, panic, assert, ◌>>=◌, ◌>>◌, ◌+u◌, ◌-u◌, ◌*u◌, ◌/u◌, ◌%u◌}
use ftn_tananfs.Structs.{Superblock, superblock_size, inode_size, data_per_inode, magic_signature}
use ftn_tananfs.Structs.Size.{next_power_of_two, size_in_bytes}

unfoldable pub align_to_block_start : ℕ → ℕ → Outcome ℕ
align_to_block_start position block_size = do
  rest ← position %u block_size
  if rest == 0 then ok position else do padding ← block_size -u rest; position +u padding

unfoldable pub usable_capacity : ℕ → ℕ → Outcome ℕ
usable_capacity capacity block_size = do
  assert (ltb block_size capacity)
  after_boot ← capacity -u block_size
  after_superblock ← after_boot -u superblock_size
  let max_inodes = after_superblock / data_per_inode
  inodes ← max_inodes *u inode_size
  after_inodes ← after_superblock -u inodes
  max_blocks ← after_inodes /u block_size
  inode_bitmap ← size_in_bytes max_inodes
  block_bitmap ← size_in_bytes max_blocks
  bitmaps ← inode_bitmap +u block_bitmap
  superblock_end ← block_size +u superblock_size
  bitmaps_end ← superblock_end +u bitmaps
  inodes_end ← bitmaps_end +u inodes
  before_blocks ← align_to_block_start inodes_end block_size
  assert (ltb before_blocks capacity)
  blocks ← capacity /u block_size
  whole ← blocks *u block_size
  whole -u before_blocks

-- `Superblock::new`
unfoldable pub new : ℕ → ℕ → Outcome Superblock
new capacity block_size = do
  rounded ← next_power_of_two 32 block_size
  assert (rounded == block_size)
  usable ← usable_capacity capacity block_size
  let inode_count = usable / data_per_inode
  block_count ← usable /u block_size
  ok (record {
    inode_count = inode_count;
    inodes_free = inode_count;
    block_count = block_count;
    blocks_free = block_count;
    block_size = block_size;
    padding_1 = replicate 20 0;
    magic = magic_signature;
    padding_2 = replicate 960 0;
  })

unfoldable pub align : Superblock → ℕ → Outcome ℕ
align s position = align_to_block_start position s.block_size

unfoldable pub bitmap_region_start : Superblock → Outcome ℕ
bitmap_region_start s = s.block_size +u superblock_size

unfoldable pub inode_region_start : Superblock → Outcome ℕ
inode_region_start s = do
  start ← bitmap_region_start s
  inode_bitmap ← size_in_bytes s.inode_count
  behind_inodes ← start +u inode_bitmap
  block_bitmap ← size_in_bytes s.block_count
  byte ← behind_inodes +u block_bitmap
  align_to_block_start byte s.block_size

unfoldable pub block_region_start : Superblock → Outcome ℕ
block_region_start s = do
  start ← inode_region_start s
  inodes ← inode_size *u s.inode_count
  byte ← start +u inodes
  align_to_block_start byte s.block_size

unfoldable pub block_region_end : Superblock → Outcome ℕ
block_region_end s = do
  start ← block_region_start s
  blocks ← s.block_size *u s.block_count
  start +u blocks

unfoldable pub inode_position : Superblock → ℕ → Outcome ℕ
inode_position s index = do
  start ← inode_region_start s
  offset ← index *u inode_size
  position ← start +u offset
  limit ← block_region_start s
  if ltb position limit then ok position else err Error.out_of_bounds

unfoldable pub block_position : Superblock → ℕ → Outcome ℕ
block_position s index = do
  start ← block_region_start s
  offset ← index *u s.block_size
  position ← start +u offset
  limit ← block_region_end s
  if ltb position limit then ok position else err Error.out_of_bounds
