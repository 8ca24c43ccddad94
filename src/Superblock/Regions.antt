-- ===== src/Superblock/Regions.antt =====
-- Where the regions of a filesystem lie, and their order.
use ftn_tananfs.Base.{ℕ, ◌+◌, ◌*◌, ◌^◌, ◌≤◌, ◌≡◌, refl, arith}
use ftn_tananfs.Outcome.{ok}
use ftn_tananfs.Structs.{Superblock, superblock_size, inode_size}
use ftn_tananfs.Structs.Size.{size_in_bytes, size_in_bytes-IsBitmapSize}
use ftn_tananfs.Superblock.{
  align_to_block_start, bitmap_region_start, inode_region_start, block_region_start,
  block_region_end,
}
use ftn_tananfs.Superblock.Layout.{IsAligned, align_to_block_start-IsAligned}

-- The regions of `s`, each where the accessor of the superblock says: the bitmaps behind the boot
-- sector and the superblock, then the inodes, then the blocks, the last two at block boundaries.
pub record Regions (s : Superblock) : Type 0 where
  pub inode_bitmap : ℕ
  pub block_bitmap : ℕ
  pub inode_bitmap_is : size_in_bytes s.inode_count ≡ ok inode_bitmap
  pub block_bitmap_is : size_in_bytes s.block_count ≡ ok block_bitmap
  pub bitmaps : ℕ
  pub inodes : ℕ
  pub blocks : ℕ
  pub end : ℕ
  pub bitmaps_at : bitmap_region_start s ≡ ok bitmaps
  pub inodes_at : inode_region_start s ≡ ok inodes
  pub blocks_at : block_region_start s ≡ ok blocks
  pub end_at : block_region_end s ≡ ok end
  pub behind_superblock : bitmaps ≡ s.block_size + superblock_size
  pub inodes_aligned : IsAligned s.block_size (bitmaps + inode_bitmap + block_bitmap) inodes
  pub blocks_aligned : IsAligned s.block_size (inodes + inode_size * s.inode_count) blocks
  pub end_is : end ≡ blocks + s.block_size * s.block_count

-- A superblock whose counts are within what a device of `2 ^ 62` bytes can have.
pub record IsModest (s : Superblock) : Type 0 where
  pub least_block : 512 ≤ s.block_size
  pub most_block : s.block_size ≤ 4096
  pub inodes : s.inode_count ≤ 2 ^ 50
  pub blocks : s.block_size * s.block_count ≤ 2 ^ 62

pub block_count_le : (s : Superblock) → IsModest s → s.block_count ≤ 2 ^ 53
block_count_le s m = omega (arith, grow)
  where
    grow : 512 * s.block_count ≤ s.block_size * s.block_count
    grow = grind arith

regions_from :
    (s : Superblock) (ib bb p q : ℕ)
    → IsModest s
    → size_in_bytes s.inode_count ≡ ok ib
    → size_in_bytes s.block_count ≡ ok bb
    → ib ≤ 2 ^ 51
    → bb ≤ 2 ^ 54
    → align_to_block_start (s.block_size + superblock_size + ib + bb) s.block_size ≡ ok p
    → IsAligned s.block_size (s.block_size + superblock_size + ib + bb) p
    → align_to_block_start (p + inode_size * s.inode_count) s.block_size ≡ ok q
    → IsAligned s.block_size (p + inode_size * s.inode_count) q
    → Regions s
unfolding bitmap_region_start inode_region_start block_region_start block_region_end
regions_from s ib bb p q m ie be isize bsize pe pa qe qa = record {
  inode_bitmap = ib;
  block_bitmap = bb;
  inode_bitmap_is = ie;
  block_bitmap_is = be;
  bitmaps = s.block_size + superblock_size;
  inodes = p;
  blocks = q;
  end = q + s.block_size * s.block_count;
  bitmaps_at = ground arith;
  inodes_at = ground arith;
  blocks_at = ground arith;
  end_at = ground arith;
  behind_superblock = refl;
  inodes_aligned = pa;
  blocks_aligned = qa;
  end_is = refl;
}

-- Every superblock of a block size between 512 and 4096 with at most 2 ^ 50 inodes and at most
-- 2 ^ 62 bytes of blocks has its regions: no accessor panics, and they lie in order.
pub IsModest-Regions : (s : Superblock) → IsModest s → Regions s
IsModest-Regions s m =
    let bc = block_count_le s m in
    let (ib, ie, isize) = size_in_bytes-IsBitmapSize s.inode_count (omega arith) in
    let (bb, be, bsize) = size_in_bytes-IsBitmapSize s.block_count (omega arith) in
    let i : ib ≤ 2 ^ 51 = omega arith in
    let j : bb ≤ 2 ^ 54 = omega arith in
    let (p, pe, pa) =
      align_to_block_start-IsAligned (s.block_size + superblock_size + ib + bb) s.block_size
        (omega arith) (omega arith) in
    let (q, qe, qa) =
      align_to_block_start-IsAligned (p + inode_size * s.inode_count) s.block_size (omega arith)
        (omega arith) in
    regions_from s ib bb p q m ie be i j pe pa qe qa
