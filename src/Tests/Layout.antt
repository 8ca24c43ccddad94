-- ===== src/Tests/Layout.antt =====
-- The layout of a device, and the bytes of a superblock and an inode.
use ftn_tananfs.Base.{ℕ, ◌≡◌, ◌≤◌, ◌+◌, ◌*◌, refl, arith, inl, inr, replicate}
use ftn_tananfs.Outcome.{ok, ◌>>=◌}
use ftn_tananfs.Structs.{Superblock, Inode, magic_signature, null_block, inode_size}
use ftn_tananfs.Structs.Packed.{
  superblock_bytes, superblock_of_bytes, inode_bytes, inode_of_bytes, SuperblockFits, InodeFits,
  superblock_of_bytes-superblock_bytes, inode_of_bytes-inode_bytes,
}
use ftn_tananfs.Structs.Size.{
  size_in_bytes, next_power_of_two, first_pow_from, IsBitmapSize, size_in_bytes-IsBitmapSize,
}
use ftn_tananfs.Superblock.{
  new, usable_capacity, align_to_block_start, block_region_end, block_region_start,
  inode_region_start, bitmap_region_start, inode_position, block_position,
}
use ftn_tananfs.Superblock.Layout.{IsDevice}
use ftn_tananfs.Superblock.Regions.{Regions, IsModest, IsModest-Regions}
use ftn_tananfs.Superblock.Formatted.{new-Regions, new-fits}
use ftn_tananfs.Superblock.Positions.{inode_position-within, block_position-within}

-- A device of 144 KiB in blocks of 4096 bytes: its last block lies beyond its end.
overrun : (new 147456 4096 >>= block_region_end) ≡ ok 151552
unfolding new usable_capacity align_to_block_start size_in_bytes next_power_of_two first_pow_from
    block_region_end block_region_start inode_region_start bitmap_region_start
overrun = refl

abbrev small_device : IsDevice 147456 4096
small_device = record {
  least_block = omega arith;
  most_block = omega arith;
  large = omega arith;
  small = omega arith;
}

abbrev fine_device : IsDevice 100000 512
fine_device = record {
  least_block = omega arith;
  most_block = omega arith;
  large = omega arith;
  small = omega arith;
}

new-Regions_example :
    (s : Superblock) × (new 147456 4096 ≡ ok s) × (r : Regions s) × (r.end ≤ 147456 + 4096)
new-Regions_example = new-Regions 147456 4096 small_device (inr (inr (inr refl)))

new-fits_example : (s : Superblock) × (new 100000 512 ≡ ok s) × (r : Regions s) × (r.end ≤ 100000)
new-fits_example = new-fits 100000 512 fine_device (inl refl) (omega arith)

abbrev sample : Superblock
sample = record {
  inode_count = 20;
  inodes_free = 19;
  block_count = 150;
  blocks_free = 149;
  block_size = 512;
  padding_1 = replicate 20 0;
  magic = magic_signature;
  padding_2 = replicate 960 0;
}

abbrev sample-IsModest : IsModest sample
sample-IsModest = record {
  least_block = omega arith;
  most_block = omega arith;
  inodes = omega arith;
  blocks = omega arith;
}

-- Its bitmaps stand at 1536, its inodes at 3584 and its blocks at 6144.
sample_blocks : block_region_start sample ≡ ok 6144
unfolding block_region_start inode_region_start bitmap_region_start align_to_block_start
    size_in_bytes next_power_of_two first_pow_from
sample_blocks = refl

inode_position-within_example :
    let r = IsModest-Regions sample sample-IsModest in
    (inode_position sample 3 ≡ ok (r.inodes + 3 * inode_size))
    × (r.inodes + 3 * inode_size + inode_size ≤ r.blocks)
inode_position-within_example =
    inode_position-within sample sample-IsModest (IsModest-Regions sample sample-IsModest) 3
      (omega arith)

block_position-within_example :
    let r = IsModest-Regions sample sample-IsModest in
    (block_position sample 149 ≡ ok (r.blocks + 149 * 512)) × (r.blocks + 149 * 512 + 512 ≤ r.end)
block_position-within_example =
    block_position-within sample sample-IsModest (IsModest-Regions sample sample-IsModest) 149
      (omega arith)

size_in_bytes-IsBitmapSize_example :
    (bytes : ℕ) × (size_in_bytes 10000 ≡ ok bytes) × IsBitmapSize 10000 bytes
size_in_bytes-IsBitmapSize_example = size_in_bytes-IsBitmapSize 10000 (omega arith)

abbrev sample-Fits : SuperblockFits sample
sample-Fits = record {
  inode_count = omega arith;
  inodes_free = omega arith;
  block_count = omega arith;
  blocks_free = omega arith;
  block_size = omega arith;
  padding_1 = refl;
  magic = omega arith;
  padding_2 = refl;
}

superblock_of_bytes-superblock_bytes_example :
    superblock_of_bytes (superblock_bytes sample) ≡ sample
superblock_of_bytes-superblock_bytes_example =
    superblock_of_bytes-superblock_bytes sample sample-Fits

abbrev file : Inode
file = record {
  index = 7;
  mode = 420;
  file_type = 4;
  size = 5000;
  uid = 1000;
  gid = 1000;
  atime = 1700000000;
  ctime = 1700000001;
  mtime = 1700000002;
  dtime = 0;
  block_count = 2;
  metadata = record { m0 = 2; m1 = 0; m2 = 0; m3 = 0; m4 = 9 };
  padding_1 = replicate 5 0;
  first_block = 3;
  last_block = null_block;
}

abbrev file-Fits : InodeFits file
file-Fits = record {
  index = omega arith;
  mode = omega arith;
  file_type = omega arith;
  size = omega arith;
  uid = omega arith;
  gid = omega arith;
  atime = omega arith;
  ctime = omega arith;
  mtime = omega arith;
  dtime = omega arith;
  block_count = omega arith;
  m0 = omega arith;
  m1 = omega arith;
  m2 = omega arith;
  m3 = omega arith;
  m4 = omega arith;
  padding_1 = refl;
  first_block = omega arith;
  last_block = omega arith;
}

inode_of_bytes-inode_bytes_example : inode_of_bytes (inode_bytes file) ≡ file
inode_of_bytes-inode_bytes_example = inode_of_bytes-inode_bytes file file-Fits
