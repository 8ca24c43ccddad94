-- ===== src/Tests/Mounting.antt =====
-- A filesystem that is made and mounted, and a read of a file in it.
use ftn_tananfs.Base.{ℕ, ◌≡◌, refl, arith, none, [], ◌∷◌, inl, replicate}
use ftn_tananfs.Outcome.{ok}
use ftn_tananfs.Structs.{magic_signature}
use ftn_tananfs.Superblock.{
  new as new_superblock, usable_capacity, align_to_block_start, bitmap_region_start,
}
use ftn_tananfs.Bitmap.{empty as empty_bitmap, new_inodes, new_blocks}
use ftn_tananfs.Structs.Size.{next_power_of_two, first_pow_from, size_in_bytes, size_in_usize}
use ftn_tananfs.Superblock.Layout.{IsDevice}
use ftn_tananfs.Cache.{empty}
use ftn_tananfs.Filesystem.{Filesystem}
use ftn_tananfs.Filesystem.Mount.{new}
use ftn_tananfs.Filesystem.Accounts.{IsAccounted}
use ftn_tananfs.Fuse.Session.{init}
use ftn_tananfs.Fuse.Requests.{Request, handle, Reach}
use ftn_tananfs.Fuse.Mounted.{new-init-Reach}
use ftn_tananfs.Tests.Allocation.{zeros}

abbrev made : Filesystem ℕ
made = record {
  superblock = record {
    inode_count = 22;
    inodes_free = 22;
    block_count = 182;
    blocks_free = 182;
    block_size = 512;
    padding_1 = replicate 20 0;
    magic = magic_signature;
    padding_2 = replicate 960 0;
  };
  inodes = record { bitfield = replicate 128 0; count = 22; position = 1536 };
  blocks = record { bitfield = replicate 128 0; count = 182; position = 2560 };
  store = record { world = 0; cache = empty; last_flush = none };
}

device : IsDevice 100000 512
device = record {
  least_block = omega arith;
  most_block = omega arith;
  large = omega arith;
  small = omega arith;
}

made-run : new 100000 512 0 ≡ ok made
unfolding new new_superblock next_power_of_two first_pow_from usable_capacity size_in_bytes
    align_to_block_start new_inodes bitmap_region_start empty_bitmap size_in_usize new_blocks
made-run = refl

new-init-Reach_example :
    IsAccounted 1 (handle zeros (Request.mkdir 1 (0x61 ∷ []) 420) (init zeros made).1).1
new-init-Reach_example =
    let request = Request.mkdir 1 (0x61 ∷ []) 420 in
    new-init-Reach zeros 0 100000 512 made (handle zeros request (init zeros made).1).1 device
      (inl refl) made-run (omega arith) (Reach.served request (init zeros made).1 Reach.here)
