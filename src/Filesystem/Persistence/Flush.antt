-- ===== src/Filesystem/Persistence/Flush.antt =====
-- `force_flush` on a device that does not fail.
use ftn_tananfs.Base.{ℕ, ◌+◌, ◌≤◌, ◌≡◌, refl, ap, ◌∙◌, arith, inl, some, List, length}
use ftn_tananfs.Outcome.{ok}
use ftn_tananfs.Block.{overwrite}
use ftn_tananfs.Block.Data.{length-overwrite}
use ftn_tananfs.Structs.Packed.{superblock_bytes, length-superblock_bytes}
use ftn_tananfs.Superblock.Regions.{Regions}
use ftn_tananfs.Device.{Device}
use ftn_tananfs.Device.Holds.{Holds, Holds-overwrite, Holds-apart}
use ftn_tananfs.Device.Memory.{IsMemory}
use ftn_tananfs.Device.Images.{IsImage, flush_superblock-Writes, flush_bitmap-Writes}
use ftn_tananfs.Filesystem.{Filesystem, Store}
use ftn_tananfs.Filesystem.Flushing.{force_flush}
use ftn_tananfs.Filesystem.Persistence.Sound.{IsSound}
use ftn_tananfs.Filesystem.Persistence.CacheFlush.{BootKept, LinesOn, LinesOn-write, cache-LinesOn}

module _ {W : Type 0} {device : Device W} (memory : IsMemory device) where
  module _ (fs : Filesystem W) (r : Regions fs.superblock) (sound : IsSound fs r) where
    -- The filesystem as it is in memory stands on the device, `image` for its inode bitmap and
    -- `image'` for its block bitmap.
    pub record IsOn (image image' content : List ℕ) : Type 0 where
      pub superblock : Holds fs.superblock.block_size (superblock_bytes fs.superblock) content
      pub inodes : Holds r.bitmaps image content
      pub blocks : Holds (r.bitmaps + r.inode_bitmap) image' content
      pub lines : LinesOn memory fs r content

    module _ (image image' : List ℕ) (i : IsImage fs.inodes r.inode_bitmap image)
        (j : IsImage fs.blocks r.block_bitmap image') where
      -- The three writes behind `flush_cache`
      written-IsOn :
          (xs : List ℕ)
          → r.end ≤ length xs
          → LinesOn memory fs r xs
          → let one = overwrite fs.superblock.block_size (superblock_bytes fs.superblock) xs in
            let two = overwrite r.bitmaps image one in
            let three = overwrite (r.bitmaps + r.inode_bitmap) image' two in
            (length one ≡ length xs)
            × (length two ≡ length xs)
            × (length three ≡ length xs)
            × IsOn image image' three
            × BootKept fs.superblock.block_size xs three
      written-IsOn xs room on =
          let s = fs.superblock in
          let head = superblock_bytes s in
          let size = length-superblock_bytes s sound.fits in
          let a = i.size in
          let b = j.size in
          let c = r.behind_superblock in
          let d = r.inodes_aligned.reaches in
          let e = r.blocks_aligned.reaches in
          let g = r.end_is in
          let one = overwrite s.block_size head xs in
          let fits1 : s.block_size + length head ≤ length xs =
            omega (arith, size, c, d, e, g, room) in
          let len1 : length one ≡ length xs = length-overwrite s.block_size head xs fits1 in
          let two = overwrite r.bitmaps image one in
          let fits2 : r.bitmaps + length image ≤ length one =
            omega (arith, len1, a, d, e, g, room) in
          let len2 : length two ≡ length one = length-overwrite r.bitmaps image one fits2 in
          let at3 = r.bitmaps + r.inode_bitmap in
          let fits3 : at3 + length image' ≤ length two =
            omega (arith, len1, len2, b, d, e, g, room) in
          let len3 = length-overwrite at3 image' two fits3 in
          (
            len1,
            len2 ∙ len1,
            len3 ∙ len2 ∙ len1,
            record {
              superblock =
                  Holds-apart s.block_size at3 head image' two fits3 (inl (omega (arith, size, c)))
                    (Holds-apart s.block_size r.bitmaps head image one fits2
                      (inl (omega (arith, size, c)))
                      (Holds-overwrite s.block_size head xs (omega (arith, fits1))));
              inodes =
                  Holds-apart r.bitmaps at3 image image' two fits3 (inl (omega (arith, a)))
                    (Holds-overwrite r.bitmaps image one (omega (arith, fits2)));
              blocks = Holds-overwrite at3 image' two (omega (arith, fits3));
              lines = LinesOn-write memory fs r sound at3 image' two (omega (arith, b, d)) fits3 (
                  LinesOn-write memory fs r sound r.bitmaps image one (omega (arith, a, d)) fits2 (
                    LinesOn-write memory fs r sound s.block_size head xs (omega (arith, size, c, d))
                      fits1 on));
            },
            λ p bs h stands. Holds-apart p at3 bs image' two fits3 (inl (omega (arith, h, c))) (
                Holds-apart p r.bitmaps bs image one fits2 (inl (omega (arith, h, c)))
                  (Holds-apart p s.block_size bs head xs fits1 (inl h) stands)),
          )

      -- With a device that does not fail and is large enough, `force_flush` succeeds, and what is in
      -- memory stands on the device.
      pub force_flush-IsOn :
          r.end ≤ length (memory.content fs.store.world)
          → (store : Store W) × (force_flush device fs ≡ (ok tt, record fs { store = store }))
            × (length (memory.content store.world) ≡ length (memory.content fs.store.world))
            × IsOn image image' (memory.content store.world)
            × BootKept fs.superblock.block_size
                (memory.content fs.store.world)
                (memory.content store.world)
      unfolding force_flush
      force_flush-IsOn room =
          let s = fs.superblock in
          let (store, run, len, on, boot) = cache-LinesOn memory fs r sound room in
          let xs = memory.content store.world in
          let (len1, len2, len3, is_on, boot') = written-IsOn xs (rw len room) on in
          let at_block = r.bitmaps + r.inode_bitmap in
          let (w1, e1, c1) = (flush_superblock-Writes memory s).at store.world (
            omega (
              arith,
              len,
              room,
              length-superblock_bytes s sound.fits,
              r.behind_superblock,
              r.inodes_aligned.reaches,
              r.blocks_aligned.reaches,
              r.end_is,
            )) in
          let (w2, e2, c2) =
            (flush_bitmap-Writes memory fs.inodes r.inode_bitmap image sound.inodes i).at w1 (
              omega (
                arith,
                ap length c1,
                len1,
                len,
                room,
                i.size,
                sound.inodes_at,
                r.inodes_aligned.reaches,
                r.blocks_aligned.reaches,
                r.end_is,
              )) in
          let two_is : memory.content w2 ≡ _ =
            c2 ∙ (λ t. overwrite (sound.inodes_at t) image (c1 t)) in
          let (w3, e3, c3) =
            (flush_bitmap-Writes memory fs.blocks r.block_bitmap image' sound.blocks j).at w2 (
              omega (
                arith,
                ap length two_is,
                len2,
                len,
                room,
                j.size,
                sound.blocks_at,
                r.inodes_aligned.reaches,
                r.blocks_aligned.reaches,
                r.end_is,
              )) in
          let (now, w4) = device.now w3 in
          let three_is : memory.content w4 ≡ _ =
            memory.ticks w3 ∙ c3 ∙ (λ t. overwrite (sound.blocks_at t) image' (two_is t)) in
          (
            record store { world = w4; last_flush = some now },
            rw (run, e1, e2, e3) refl,
            ap length three_is ∙ len3 ∙ len,
            rw three_is is_on,
            λ p bs h stands. rw three_is (boot' p bs h (boot p bs h stands)),
          )
