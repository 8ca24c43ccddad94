-- ===== src/Filesystem/Accounts/Fresh.antt =====
-- A new filesystem begins with its accounts in order and nothing in its cache.
use ftn_tananfs.Base.{
  ℕ, ◌+◌, ◌≤◌, ◌≡◌, refl, ◌∙◌, arith, ◌^◌, true, ◌==◌, ◌&&◌, leb, none, inl, inr,
}
use ftn_tananfs.Outcome.{ok, assert-ok, +u-ok}
use ftn_tananfs.Structs.{Superblock, Bitmap}
use ftn_tananfs.Structs.Size.{IsBitmapSize-of_ok}
use ftn_tananfs.Superblock.{new as new_superblock}
use ftn_tananfs.Superblock.Layout.{IsBlockSize, IsDevice, usable_capacity-Usable}
use ftn_tananfs.Superblock.Regions.{Regions, IsModest, IsModest-Regions, block_count_le}
use ftn_tananfs.Superblock.Formatted.{formatted, formatted-IsModest, new_run, rounds_to_self}
use ftn_tananfs.Bitmap.{empty, new_inodes, new_blocks}
use ftn_tananfs.Bitmap.Bits.{empty-IsValid}
use ftn_tananfs.Bitmap.Free.{free_below_all}
use ftn_tananfs.Cache.{empty as empty_cache}
use ftn_tananfs.Filesystem.{Filesystem}
use ftn_tananfs.Filesystem.Mount.{new}
use ftn_tananfs.Filesystem.Accounts.{IsAccounted}

module _ (s : Superblock) (m : IsModest s) (r : Regions s) where
  new_inodes_run : new_inodes s ≡ empty s.inode_count r.bitmaps
  unfolding new_inodes
  new_inodes_run = rw r.bitmaps_at

  new_blocks_run : new_blocks s ≡ empty s.block_count (r.bitmaps + r.inode_bitmap)
  unfolding new_blocks
  new_blocks_run =
      let small : r.inode_bitmap ≤ 2 ^ 51 =
        let size = IsBitmapSize-of_ok s.inode_count r.inode_bitmap r.inode_bitmap_is in
        omega (arith, m.inodes) in
      rw (
        r.bitmaps_at,
        r.inode_bitmap_is,
        +u-ok r.bitmaps r.inode_bitmap (omega (arith, r.behind_superblock, m.most_block)),
      )

accepted : (b : ℕ) → IsBlockSize b → (b == b && leb 512 b && leb b 4096) ≡ true
accepted b (inl e) = rw e
accepted b (inr (inl e)) = rw e
accepted b (inr (inr (inl e))) = rw e
accepted b (inr (inr (inr e))) = rw e

new_steps :
    {W : Type 0} (w : W) (capacity b : ℕ) (s : Superblock) (inodes blocks : Bitmap)
    → new_superblock capacity b ≡ ok s
    → IsBlockSize b
    → new_inodes s ≡ ok inodes
    → new_blocks s ≡ ok blocks
    → new capacity b w
      ≡ ok (record {
        superblock = s;
        inodes = inodes;
        blocks = blocks;
        store = record { world = w; cache = empty_cache; last_flush = none };
      })
unfolding new
new_steps w capacity b s inodes blocks e size ie be =
    rw (new, e, rounds_to_self b size, assert-ok _ (accepted b size), ie, be)

-- What `Filesystem::new` makes
pub new-made :
    {W : Type 0} (w : W) (capacity b : ℕ)
    → IsDevice capacity b
    → IsBlockSize b
    → (fs : Filesystem W) × (new capacity b w ≡ ok fs)
      × IsAccounted 0 fs
      × (fs.superblock.blocks_free ≡ fs.superblock.block_count)
      × (fs.superblock.inodes_free ≡ fs.superblock.inode_count)
      × (fs.store ≡ record { world = w; cache = empty_cache; last_flush = none })
      × IsModest fs.superblock
      × (fs.superblock.block_size ≡ b)
new-made w capacity b device size =
    let (u, e, us) = usable_capacity-Usable device in
    let s = formatted b u in
    let m = formatted-IsModest device us in
    let r = IsModest-Regions s m in
    let (i, ie, iv, ic, ifree) = empty-IsValid s.inode_count r.bitmaps (omega (arith, m.inodes)) in
    let (k, ke, kv, kc, kfree) =
      empty-IsValid s.block_count (r.bitmaps + r.inode_bitmap)
        (omega (arith, block_count_le s m)) in
    (
      record {
        superblock = s;
        inodes = i;
        blocks = k;
        store = record { world = w; cache = empty_cache; last_flush = none };
      },
      new_steps w capacity b s i k (new_run capacity b u size e) size (new_inodes_run s m r ∙ ie)
          (new_blocks_run s m r ∙ ke),
      record {
        of_inodes = record {
          valid = iv;
          covers = ic;
          counts = omega (arith, free_below_all s.inode_count i ifree);
          room = omega (arith, m.inodes);
        };
        of_blocks = record {
          valid = kv;
          covers = kc;
          counts = omega (arith, free_below_all s.block_count k kfree);
          room = omega (arith, block_count_le s m);
        };
      },
      refl,
      refl,
      refl,
      m,
      refl,
    )

-- On a device of 64 KiB to 2 ^ 62 bytes, with a block size that is accepted, `Filesystem::new`
-- succeeds: the counts of the superblock agree with its bitmaps, all inodes and blocks are free,
-- the cache is empty, the device has not been written, and the superblock has modest sizes.
pub new-IsAccounted :
    {W : Type 0} (w : W) (capacity b : ℕ)
    → IsDevice capacity b
    → IsBlockSize b
    → (fs : Filesystem W) × (new capacity b w ≡ ok fs)
      × IsAccounted 0 fs
      × (fs.superblock.blocks_free ≡ fs.superblock.block_count)
      × (fs.superblock.inodes_free ≡ fs.superblock.inode_count)
      × (fs.store ≡ record { world = w; cache = empty_cache; last_flush = none })
      × IsModest fs.superblock
new-IsAccounted w capacity b device size =
    let (fs, run, a, blocks, inodes, store, m, same) = new-made w capacity b device size in
    (fs, run, a, blocks, inodes, store, m)
