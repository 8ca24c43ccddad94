-- ===== src/Tests/Remount.antt =====
-- The filesystem of 16 inodes and 70 blocks on a device in memory, flushed and mounted again.
use ftn_tananfs.Base.{
  ℕ, zero, suc, ◌≤◌, ◌<◌, ◌≡◌, refl, sym, ◌∙◌, arith, true, false, none, List, [], ◌∷◌, length,
  replicate, length-replicate, get_or, get_or-replicate,
}
use ftn_tananfs.Outcome.{ok, word}
use ftn_tananfs.Structs.{Superblock, Inode, Block, Bitmap, magic_signature}
use ftn_tananfs.Structs.Packed.{SuperblockFits, InodeFits}
use ftn_tananfs.Structs.Size.{size_in_bytes, next_power_of_two, first_pow_from}
use ftn_tananfs.Superblock.Regions.{Regions, IsModest, IsModest-Regions}
use ftn_tananfs.Bitmap.{get}
use ftn_tananfs.Cache.{CacheLine}
use ftn_tananfs.Device.Images.{IsWhole}
use ftn_tananfs.Filesystem.{Filesystem, Store}
use ftn_tananfs.Filesystem.Flushing.{force_flush}
use ftn_tananfs.Filesystem.Mount.{load}
use ftn_tananfs.Filesystem.Access.{load_inode, load_block}
use ftn_tananfs.Filesystem.Persistence.Lines.{IsLined}
use ftn_tananfs.Filesystem.Persistence.Sound.{IsSound}
use ftn_tananfs.Filesystem.Persistence.Reload.{
  load_inode-load-force_flush, load_block-load-force_flush,
}
use ftn_tananfs.Filesystem.Persistence.Load.{reloaded}
use ftn_tananfs.Main.{start}
use ftn_tananfs.Main.Remount.{start-force_flush}
use ftn_tananfs.Tests.Disk.{Disk, disk, disk-IsMemory}

abbrev superblock : Superblock
superblock = record {
  inode_count = 16;
  inodes_free = 14;
  block_count = 70;
  blocks_free = 5;
  block_size = 512;
  padding_1 = replicate 20 0;
  magic = magic_signature;
  padding_2 = replicate 960 0;
}

abbrev inodes : Bitmap
inodes = record { bitfield = 3 ∷ replicate 127 0; count = 16; position = 1536 }

abbrev blocks : Bitmap
blocks = record {
  bitfield = 0xffff_ffff_ffff_ffff ∷ 1 ∷ replicate 126 0;
  count = 70;
  position = 2560;
}

abbrev inode : Inode
inode = record {
  index = 1;
  mode = 0o755;
  file_type = 1;
  size = 512;
  uid = 1000;
  gid = 1000;
  atime = 3;
  ctime = 2;
  mtime = 2;
  dtime = 0;
  block_count = 1;
  metadata = record { m0 = 0; m1 = 0; m2 = 0; m3 = 0; m4 = 0 };
  padding_1 = replicate 5 0;
  first_block = 64;
  last_block = 64;
}

abbrev block : Block
block = record { index = 64; bytes = replicate 512 7 }

abbrev inode_line : CacheLine Inode
inode_line = record { value = inode; modified = true; atime = 0 }

abbrev block_line : CacheLine Block
block_line = record { value = block; modified = true; atime = 0 }

abbrev fs : Filesystem Disk
fs = record {
  superblock = superblock;
  inodes = inodes;
  blocks = blocks;
  store = record {
    world = record { content = replicate 50000 0; place = 0 };
    cache = record { inodes = (1, inode_line) ∷ []; blocks = (64, block_line) ∷ [] };
    last_flush = none;
  };
}

abbrev modest : IsModest superblock
modest = record {
  least_block = omega arith;
  most_block = omega arith;
  inodes = omega arith;
  blocks = omega arith;
}

abbrev r : Regions superblock
r = IsModest-Regions superblock modest

inode_words-lt : (i : ℕ) → get_or inodes.bitfield i 0 < word
inode_words-lt zero = omega arith
inode_words-lt (suc i) = rw (get_or-replicate {A = ℕ} 127 i 0) (omega arith)

block_words-lt : (i : ℕ) → get_or blocks.bitfield i 0 < word
block_words-lt zero = omega arith
block_words-lt (suc zero) = omega arith
block_words-lt (suc (suc i)) = rw (get_or-replicate {A = ℕ} 126 i 0) (omega arith)

size_16 : size_in_bytes 16 ≡ ok 1024
unfolding size_in_bytes next_power_of_two first_pow_from
size_16 = refl

size_70 : size_in_bytes 70 ≡ ok 1024
unfolding size_in_bytes next_power_of_two first_pow_from
size_70 = refl

inode_bitmap : r.inode_bitmap ≡ 1024
inode_bitmap = let e : ok r.inode_bitmap ≡ ok 1024 = sym r.inode_bitmap_is ∙ size_16 in cc

block_bitmap : r.block_bitmap ≡ 1024
block_bitmap = let e : ok r.block_bitmap ≡ ok 1024 = sym r.block_bitmap_is ∙ size_70 in cc

inodes-IsWhole : IsWhole inodes r.inode_bitmap
inodes-IsWhole =
    rw inode_bitmap (record { sized = size_16; words = refl; bounded = inode_words-lt })

blocks-IsWhole : IsWhole blocks r.block_bitmap
blocks-IsWhole =
    rw block_bitmap (record { sized = size_70; words = refl; bounded = block_words-lt })

superblock-Fits : SuperblockFits superblock
superblock-Fits = record {
  inode_count = omega arith;
  inodes_free = omega arith;
  block_count = omega arith;
  blocks_free = omega arith;
  block_size = omega arith;
  padding_1 = refl;
  magic = omega arith;
  padding_2 = refl;
}

inode-Fits : InodeFits inode
inode-Fits = record {
  index = omega arith;
  mode = omega arith;
  file_type = omega arith;
  size = omega arith;
  uid = omega arith;
  gid = omega arith;
  atime = omega arith;
  ctime = omega arith;
  mtime = omega arith;
  dtime = omega arith;
  block_count = omega arith;
  m0 = omega arith;
  m1 = omega arith;
  m2 = omega arith;
  m3 = omega arith;
  m4 = omega arith;
  padding_1 = refl;
  first_block = omega arith;
  last_block = omega arith;
}

fs-IsSound : IsSound fs r
fs-IsSound = record {
  modest = modest;
  fits = superblock-Fits;
  inodes = inodes-IsWhole;
  inode_count = refl;
  inodes_at = sym r.behind_superblock;
  blocks = blocks-IsWhole;
  block_count = refl;
  blocks_at = omega (arith, r.behind_superblock, inode_bitmap);
  inode_lines =
      IsLined.one_more (omega arith)
        (record { index = refl; below = omega arith; fits = inode-Fits }) IsLined.none_left;
  block_lines =
      IsLined.one_more (omega arith) (record { index = refl; below = omega arith; sized = refl })
        IsLined.none_left;
}

room : r.end ≤ length fs.store.world.content
room = rw (length-replicate {0} {A = ℕ} 50000 0) (
    omega (
      arith, r.behind_superblock, inode_bitmap, block_bitmap, r.inodes_aligned.near,
      r.blocks_aligned.near, r.end_is,
    ))

inode_used : get inodes 1 ≡ ok true
unfolding get
inode_used = refl

block_used : get blocks 64 ≡ ok true
unfolding get
block_used = refl

load_inode-load-force_flush_example :
    (store : Store Disk) × (w : Disk) × (force_flush disk fs ≡ (ok tt, record fs { store = store }))
    × (load disk 512 store.world ≡ ok (reloaded fs w))
    × ((load_inode disk 1 (reloaded fs w)).0 ≡ ok inode)
load_inode-load-force_flush_example =
    load_inode-load-force_flush disk-IsMemory fs r fs-IsSound 1 inode_line room refl refl inode_used

load_block-load-force_flush_example :
    (store : Store Disk) × (w : Disk) × (force_flush disk fs ≡ (ok tt, record fs { store = store }))
    × (load disk 512 store.world ≡ ok (reloaded fs w))
    × ((load_block disk 64 false (reloaded fs w)).0 ≡ ok block)
load_block-load-force_flush_example =
    load_block-load-force_flush disk-IsMemory fs r fs-IsSound 64 block_line room refl refl
      block_used

-- The program's name, the device and the mount point
abbrev args : List (List ℕ)
args = (0x74 ∷ []) ∷ (0x64 ∷ []) ∷ (0x6d ∷ []) ∷ []

start-force_flush_example :
    (store : Store Disk) × (w : Disk) × (force_flush disk fs ≡ (ok tt, record fs { store = store }))
    × (start disk (λ value. none) (λ w. ok 50000) args store.world ≡ ok (reloaded fs w))
start-force_flush_example =
    start-force_flush disk-IsMemory fs r 9 (λ value. none) (λ w. ok 50000) args fs-IsSound room refl
      refl (omega arith) (omega arith) (λ p less least. absurd (omega arith)) (λ w. (50000, refl))
      (omega arith)
