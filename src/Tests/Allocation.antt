-- ===== src/Tests/Allocation.antt =====
-- A filesystem of 16 inodes and 70 blocks on a device that reads zeros.
use ftn_tananfs.Base.{
  ℕ, zero, suc, ◌≡◌, ◌+◌, ◌<◌, refl, arith, inl, true, false, none, [], ◌∷◌, get_or,
  get_or-replicate, replicate,
}
use ftn_tananfs.Error.{Error}
use ftn_tananfs.Outcome.{ok, err, word}
use ftn_tananfs.Outcome.Action.{Action}
use ftn_tananfs.Structs.{Bitmap, Block, magic_signature}
use ftn_tananfs.Bitmap.{get, set, next_free, free_from, free_bit, flush_chunks}
use ftn_tananfs.Bitmap.Free.{free_below, clear_below}
use ftn_tananfs.Superblock.Regions.{IsModest}
use ftn_tananfs.Superblock.Layout.{IsDevice}
use ftn_tananfs.Cache.{empty as empty_cache, prune, Map, CacheLine}
use ftn_tananfs.Device.{Device}
use ftn_tananfs.Device.Structures.{flush_superblock, flush_bitmap, flush_content}
use ftn_tananfs.Structs.Size.{size_in_bytes, next_power_of_two, first_pow_from, size_in_usize}
use ftn_tananfs.Filesystem.{Filesystem}
use ftn_tananfs.Filesystem.Flushing.{flush, force_flush, flush_cache, flush_lines}
use ftn_tananfs.Filesystem.Allocator.{release_inode, acquire_block, release_block, acquire_inode}
use ftn_tananfs.Filesystem.Access.{load_block, flush_block}
use ftn_tananfs.Filesystem.Mount.{new}
use ftn_tananfs.Filesystem.Coherence.{load_block-flush_block}
use ftn_tananfs.Filesystem.Accounts.{IsAccounted}
use ftn_tananfs.Filesystem.Accounts.Frame.{after}
use ftn_tananfs.Filesystem.Accounts.Fresh.{new-IsAccounted}
use ftn_tananfs.Filesystem.Accounts.Blocks.{
  BlockAcquired, BlockReleased, acquire_block-BlockAcquired, release_block-BlockReleased,
}
use ftn_tananfs.Filesystem.Accounts.Inodes.{
  InodeAcquired, InodeReleased, acquire_inode-InodeAcquired, release_inode-InodeReleased,
}

-- Its state is the clock, which a reading moves on.
abbrev pub zeros : Device ℕ
zeros = record {
  seek = λ position w. (ok tt, w);
  read_exact = λ n w. (ok (replicate n 0), w);
  write_all = λ bytes w. (ok tt, w);
  now = λ w. (w, w + 1);
  unix_time = λ w. (w, w);
  into_sorted_vec = λ lines. lines;
  regular_file = 4;
  directory = 3;
}

abbrev inodes : Bitmap
inodes = record { bitfield = 3 ∷ replicate 127 0; count = 16; position = 1536 }

abbrev blocks : Bitmap
blocks = record {
  bitfield = 0xffff_ffff_ffff_ffff ∷ 1 ∷ replicate 126 0;
  count = 70;
  position = 2560;
}

abbrev pub fs : Filesystem ℕ
fs = record {
  superblock = record {
    inode_count = 16;
    inodes_free = 14;
    block_count = 70;
    blocks_free = 5;
    block_size = 512;
    padding_1 = replicate 20 0;
    magic = magic_signature;
    padding_2 = replicate 960 0;
  };
  inodes = inodes;
  blocks = blocks;
  store = record { world = 0; cache = empty_cache; last_flush = none };
}

inode_words-lt : (i : ℕ) → get_or inodes.bitfield i 0 < word
inode_words-lt zero = omega arith
inode_words-lt (suc i) = rw (get_or-replicate {A = ℕ} 127 i 0) (omega arith)

block_words-lt : (i : ℕ) → get_or blocks.bitfield i 0 < word
block_words-lt zero = omega arith
block_words-lt (suc zero) = omega arith
block_words-lt (suc (suc i)) = rw (get_or-replicate {A = ℕ} 126 i 0) (omega arith)

pub fs-IsAccounted : IsAccounted 0 fs
unfolding free_below clear_below
fs-IsAccounted = record {
  of_inodes = record {
    valid = record { covers = omega arith; bounded = inode_words-lt; below_null = omega arith };
    covers = refl;
    counts = refl;
    room = omega arith;
  };
  of_blocks = record {
    valid = record { covers = omega arith; bounded = block_words-lt; below_null = omega arith };
    covers = refl;
    counts = refl;
    room = omega arith;
  };
}

acquire_run : (acquire_block zeros fs).0 ≡ ok 65
unfolding acquire_block next_free free_from free_bit set flush force_flush flush_cache flush_lines
    prune flush_superblock flush_bitmap flush_content size_in_bytes next_power_of_two first_pow_from
    size_in_usize flush_chunks
acquire_run = refl

acquire_block-BlockAcquired_example : BlockAcquired zeros fs (acquire_block zeros fs)
acquire_block-BlockAcquired_example = acquire_block-BlockAcquired zeros fs fs-IsAccounted

release_block-BlockReleased_example : BlockReleased zeros fs 64 (release_block zeros 64 fs)
release_block-BlockReleased_example = release_block-BlockReleased zeros fs 64 fs-IsAccounted

acquire_inode-InodeAcquired_example : InodeAcquired zeros fs (acquire_inode zeros fs)
acquire_inode-InodeAcquired_example = acquire_inode-InodeAcquired zeros fs fs-IsAccounted

release_inode-InodeReleased_example : InodeReleased zeros fs 1 (release_inode zeros 1 fs)
release_inode-InodeReleased_example = release_inode-InodeReleased zeros fs 1 fs-IsAccounted

new-IsAccounted_example :
    (made : Filesystem ℕ) × (new 100000 512 0 ≡ ok made)
    × IsAccounted 0 made
    × (made.superblock.blocks_free ≡ made.superblock.block_count)
    × (made.superblock.inodes_free ≡ made.superblock.inode_count)
    × (made.store ≡ record { world = 0; cache = empty_cache; last_flush = none })
    × IsModest made.superblock
new-IsAccounted_example = new-IsAccounted 0 100000 512 fine_device (inl refl)
  where
    fine_device : IsDevice 100000 512
    fine_device = record {
      least_block = omega arith;
      most_block = omega arith;
      large = omega arith;
      small = omega arith;
    }

abbrev page : Block
page = record { index = 64; bytes = replicate 512 1 }

load_block-flush_block_example :
    (load_block zeros 64 false (after (flush_block zeros page fs))).0 ≡ ok page
unfolding get
load_block-flush_block_example = load_block-flush_block zeros fs page refl (omega arith)

abbrev lines : Map (CacheLine Block)
lines =
    (3, record { value = page; modified = true; atime = 5 })
    ∷ (64, record { value = page; modified = false; atime = 4 })
    ∷ []

-- Every write fails.
abbrev fails : Block → Action ℕ (Unit {0})
fails block w = (err Error.not_found, w)
