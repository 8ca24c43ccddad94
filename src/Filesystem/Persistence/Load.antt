-- ===== src/Filesystem/Persistence/Load.antt =====
-- `load` of a filesystem that stands on its device.
use ftn_tananfs.Base.{
  ℕ, ◌+◌, ◌/◌, ◌≤◌, ◌≡◌, refl, sym, ap, ◌∙◌, arith, none, List, length, replicate, length-replicate,
}
use ftn_tananfs.Outcome.{ok, +u-ok}
use ftn_tananfs.Structs.{Superblock, Bitmap}
use ftn_tananfs.Structs.Size.{size_in_usize-size_in_bytes}
use ftn_tananfs.Structs.Packed.{length-superblock_bytes}
use ftn_tananfs.Superblock.Regions.{Regions, IsModest}
use ftn_tananfs.Superblock.Positions.{end_lt}
use ftn_tananfs.Bitmap.{empty as empty_bitmap, new_inodes, new_blocks}
use ftn_tananfs.Cache.{empty}
use ftn_tananfs.Device.{Device}
use ftn_tananfs.Device.Memory.{IsMemory}
use ftn_tananfs.Device.Images.{IsImage, IsImage-of, load_superblock-Reads, load_bitmap-Reads}
use ftn_tananfs.Filesystem.{Filesystem, Store}
use ftn_tananfs.Filesystem.Flushing.{force_flush}
use ftn_tananfs.Filesystem.Mount.{load}
use ftn_tananfs.Filesystem.Persistence.Sound.{IsSound}
use ftn_tananfs.Filesystem.Persistence.Flush.{IsOn, force_flush-IsOn}
use ftn_tananfs.Filesystem.Persistence.CacheFlush.{LinesOn}

-- The bitmap that `load` reads into
abbrev blank : ℕ → ℕ → ℕ → Bitmap
blank count bytes position = record {
  bitfield = replicate (bytes / 8) 0;
  count = count;
  position = position;
}

new_inodes-run :
    (s : Superblock) (r : Regions s)
    → new_inodes s ≡ ok (blank s.inode_count r.inode_bitmap r.bitmaps)
unfolding new_inodes empty_bitmap
new_inodes-run s r =
    rw (r.bitmaps_at, size_in_usize-size_in_bytes s.inode_count r.inode_bitmap_is) refl

new_blocks-run :
    (s : Superblock) (r : Regions s)
    → IsModest s
    → new_blocks s ≡ ok (blank s.block_count r.block_bitmap (r.bitmaps + r.inode_bitmap))
unfolding new_blocks empty_bitmap
new_blocks-run s r m =
    rw
      (
        r.bitmaps_at,
        r.inode_bitmap_is,
        +u-ok r.bitmaps r.inode_bitmap (
            omega
              (arith, end_lt s m r, r.inodes_aligned.reaches, r.blocks_aligned.reaches, r.end_is)),
        size_in_usize-size_in_bytes s.block_count r.block_bitmap_is,
      )
      refl

module _ {W : Type 0} where
  -- The filesystem as it is after it was loaded
  abbrev pub reloaded : Filesystem W → W → Filesystem W
  reloaded fs w = record fs { store = record { world = w; cache = empty; last_flush = none } }

module _ {W : Type 0} {device : Device W} (memory : IsMemory device) (fs : Filesystem W)
    (r : Regions fs.superblock) (sound : IsSound fs r) where
  pub load-IsOn :
      (image image' : List ℕ) (w : W)
      → IsImage fs.inodes r.inode_bitmap image
      → IsImage fs.blocks r.block_bitmap image'
      → IsOn memory fs r sound image image' (memory.content w)
      → r.end ≤ length (memory.content w)
      → (w' : W) × (load device fs.superblock.block_size w ≡ ok (reloaded fs w'))
        × (memory.content w' ≡ memory.content w)
  unfolding load
  load-IsOn image image' w i j on room =
      let s = fs.superblock in
      let (w1, e1, c1) =
        (load_superblock-Reads memory s sound.fits).at w
          (omega (
            arith,
            room,
            length-superblock_bytes s sound.fits,
            r.behind_superblock,
            r.inodes_aligned.reaches,
            r.blocks_aligned.reaches,
            r.end_is,
          ))
          on.superblock in
      let (w2, e2, c2) =
        (load_bitmap-Reads memory fs.inodes (blank s.inode_count r.inode_bitmap r.bitmaps)
            r.inode_bitmap image sound.inodes i (sym sound.inode_count) (sym sound.inodes_at)
            (length-replicate {0} {A = ℕ} (r.inode_bitmap / 8) 0)).at
          w1
          (omega (
            arith,
            ap length c1,
            room,
            i.size,
            sound.inodes_at,
            r.inodes_aligned.reaches,
            r.blocks_aligned.reaches,
            r.end_is,
          ))
          (rw (sound.inodes_at, c1) on.inodes) in
      let (w3, e3, c3) =
        (load_bitmap-Reads memory fs.blocks
            (blank s.block_count r.block_bitmap (r.bitmaps + r.inode_bitmap)) r.block_bitmap image'
            sound.blocks j (sym sound.block_count) (sym sound.blocks_at)
            (length-replicate {0} {A = ℕ} (r.block_bitmap / 8) 0)).at
          w2
          (omega (
            arith,
            ap length c1,
            ap length c2,
            room,
            j.size,
            sound.blocks_at,
            r.inodes_aligned.reaches,
            r.blocks_aligned.reaches,
            r.end_is,
          ))
          (rw (sound.blocks_at, c2, c1) on.blocks) in
      (
        w3,
        rw (load, e1, new_inodes-run s r, new_blocks-run s r sound.modest, e2, e3) refl,
        c3 ∙ c2 ∙ c1,
      )

  -- What `force_flush` leaves on the device is what `load` reads.
  pub remounted :
      r.end ≤ length (memory.content fs.store.world)
      → (store : Store W) × (w : W) × (force_flush device fs ≡ (ok tt, record fs { store = store }))
        × (load device fs.superblock.block_size store.world ≡ ok (reloaded fs w))
        × (length (memory.content w) ≡ length (memory.content fs.store.world))
        × LinesOn memory fs r (memory.content w)
  remounted room =
      let (image, i) = IsImage-of fs.inodes r.inode_bitmap sound.inodes in
      let (image', j) = IsImage-of fs.blocks r.block_bitmap sound.blocks in
      let (store, run, len, on, boot) = force_flush-IsOn memory fs r sound image image' i j room in
      let (w, read, same) = load-IsOn image image' store.world i j on (rw len room) in
      (store, w, run, read, ap length same ∙ len, rw same on.lines)
