-- ===== src/Superblock/Positions.antt =====
-- `inode_position` and `block_position` give every inode and every block a place of its own.
use ftn_tananfs.Base.{ℕ, ◌+◌, ◌*◌, ◌^◌, ◌≤◌, ◌<◌, ◌≡◌, arith}
use ftn_tananfs.Error.{Error}
use ftn_tananfs.Outcome.{ok, err}
use ftn_tananfs.Structs.{Superblock, inode_size}
use ftn_tananfs.Structs.Size.{IsBitmapSize-of_ok}
use ftn_tananfs.Superblock.{inode_position, block_position}
use ftn_tananfs.Superblock.Regions.{Regions, IsModest, block_count_le}
use native.Mathlib.Nat.{mul-le-mul_left}

module _ (s : Superblock) (m : IsModest s) (r : Regions s) where
  pub end_lt : r.end < 2 ^ 63
  end_lt =
      let bc = block_count_le s m in
      let i = IsBitmapSize-of_ok s.inode_count r.inode_bitmap r.inode_bitmap_is in
      let j = IsBitmapSize-of_ok s.block_count r.block_bitmap r.block_bitmap_is in
      let x : r.inode_bitmap ≤ 2 ^ 51 = omega (arith, m.inodes) in
      let y : r.block_bitmap ≤ 2 ^ 54 = omega arith in
      omega (
        arith, m.inodes, m.blocks, m.most_block, r.end_is, r.behind_superblock,
        r.inodes_aligned.near, r.blocks_aligned.near,
      )

  -- For a superblock of modest counts, `inode_position` of an index below the count is the start of
  -- the inode region and so many inodes, and that inode ends before the blocks begin.
  pub inode_position-within :
      (index : ℕ)
      → index < s.inode_count
      → (inode_position s index ≡ ok (r.inodes + index * inode_size))
        × (r.inodes + index * inode_size + inode_size ≤ r.blocks)
  unfolding inode_position
  inode_position-within index h =
      let place : r.inodes + index * inode_size + inode_size ≤ r.blocks =
        omega (arith, r.blocks_aligned.reaches) in
      let limit : r.blocks < 2 ^ 63 = omega (arith, end_lt, r.end_is) in
      (ground (arith, r.inodes_at, r.blocks_at), place)

  -- For a superblock of modest counts, `block_position` of an index below the count is the start of
  -- the block region and so many blocks, and that block ends within the region.
  pub block_position-within :
      (index : ℕ)
      → index < s.block_count
      → (block_position s index ≡ ok (r.blocks + index * s.block_size))
        × (r.blocks + index * s.block_size + s.block_size ≤ r.end)
  unfolding block_position
  block_position-within index h =
      let below : s.block_size * (index + 1) ≤ s.block_size * s.block_count =
        mul-le-mul_left s.block_size (omega arith) in
      let place : r.blocks + index * s.block_size + s.block_size ≤ r.end =
        omega (arith, r.end_is) in
      let limit : r.end < 2 ^ 63 = end_lt in
      let positive : 0 < s.block_size = omega (arith, m.least_block) in
      (ground (arith, r.blocks_at, r.end_at), place)

  -- For a superblock of modest counts, `block_position` of an index from the count on and below
  -- `2 ^ 50` is out of bounds.
  pub block_position-beyond :
      (index : ℕ)
      → s.block_count ≤ index
      → index < 2 ^ 50
      → block_position s index ≡ err Error.out_of_bounds
  unfolding block_position
  block_position-beyond index h small =
      let beyond : s.block_size * s.block_count ≤ s.block_size * index =
        mul-le-mul_left s.block_size h in
      let fits : s.block_size * index ≤ s.block_size * 2 ^ 50 =
        mul-le-mul_left s.block_size (omega arith) in
      let limit : r.end < 2 ^ 63 = end_lt in
      let at : r.end ≤ r.blocks + s.block_size * index = omega (arith, r.end_is) in
      ground (arith, r.blocks_at, r.end_at, m.most_block)
