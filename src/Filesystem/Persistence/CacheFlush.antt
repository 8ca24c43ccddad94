-- ===== src/Filesystem/Persistence/CacheFlush.antt =====
-- `flush_cache` on a device that does not fail.
use ftn_tananfs.Base.{ℕ, ◌+◌, ◌*◌, ◌≤◌, ◌≡◌, refl, ◌∙◌, arith, true, inl, inr, some, List, length}
use ftn_tananfs.Outcome.{ok}
use ftn_tananfs.Block.{overwrite}
use ftn_tananfs.Structs.{Inode, Block, inode_size}
use ftn_tananfs.Structs.Packed.{inode_bytes, length-inode_bytes}
use ftn_tananfs.Superblock.Regions.{Regions}
use ftn_tananfs.Cache.{CacheLine, lookup, prune}
use ftn_tananfs.Device.{Device}
use ftn_tananfs.Device.Holds.{Holds, Holds-apart}
use ftn_tananfs.Device.Memory.{IsMemory}
use ftn_tananfs.Device.Structures as Structures
use ftn_tananfs.Filesystem.{Filesystem, Store}
use ftn_tananfs.Filesystem.Flushing.{flush_cache}
use ftn_tananfs.Filesystem.Persistence.Lines.{IsLined-map, IsLined-lookup, flush_lines-Flushed}
use ftn_tananfs.Filesystem.Persistence.Sound.{IsSound, IsGoodInode-Writable, IsGoodBlock-Writable}

-- What stood in the boot sector still stands there.
abbrev pub BootKept : ℕ → List ℕ → List ℕ → Type 0
BootKept block_size xs ys =
    (p : ℕ) (bs : List ℕ) → p + length bs ≤ block_size → Holds p bs xs → Holds p bs ys

module _ {W : Type 0} {device : Device W} (memory : IsMemory device) where
  -- The values of the modified lines of `fs` stand at their places on the device.
  pub record LinesOn (fs : Filesystem W) (r : Regions fs.superblock) (content : List ℕ)
      : Type 0 where
    pub inodes :
        (k : ℕ) (line : CacheLine Inode)
        → lookup k fs.store.cache.inodes ≡ some line
        → line.modified ≡ true
        → Holds (r.inodes + k * inode_size) (inode_bytes line.value) content
    pub blocks :
        (k : ℕ) (line : CacheLine Block)
        → lookup k fs.store.cache.blocks ≡ some line
        → line.modified ≡ true
        → Holds (r.blocks + k * fs.superblock.block_size) line.value.bytes content

  module _ (fs : Filesystem W) (r : Regions fs.superblock) (sound : IsSound fs r) where
    -- A write in front of the inodes leaves the lines.
    pub LinesOn-write :
        (p : ℕ) (bs xs : List ℕ)
        → p + length bs ≤ r.inodes
        → p + length bs ≤ length xs
        → LinesOn fs r xs
        → LinesOn fs r (overwrite p bs xs)
    LinesOn-write p bs xs front fits on = record {
      inodes = λ k line found dirty.
          Holds-apart (r.inodes + k * inode_size) p (inode_bytes line.value) bs xs fits
            (inr (omega (arith, front))) (on.inodes k line found dirty);
      blocks = λ k line found dirty.
          Holds-apart (r.blocks + k * fs.superblock.block_size) p line.value.bytes bs xs fits
            (inr (omega (arith, front, r.blocks_aligned.reaches))) (on.blocks k line found dirty);
    }

    pub cache-LinesOn :
        r.end ≤ length (memory.content fs.store.world)
        → (store : Store W) × (flush_cache device fs.superblock fs.store ≡ (ok tt, store))
          × (length (memory.content store.world) ≡ length (memory.content fs.store.world))
          × LinesOn fs r (memory.content store.world)
          × BootKept fs.superblock.block_size
              (memory.content fs.store.world)
              (memory.content store.world)
    unfolding flush_cache
    cache-LinesOn room =
        let s = fs.superblock in
        let e : s.block_count * s.block_size ≡ s.block_size * s.block_count = grind arith in
        let e' : s.inode_count * inode_size ≡ inode_size * s.inode_count = grind arith in
        let between = r.blocks_aligned.reaches in
        let (inodes', w1, run, f) =
          flush_lines-Flushed memory r.inodes inode_size s.inode_count inode_bytes
            (Structures.flush_inode device s) 0 fs.store.cache.inodes fs.store.world
            (IsLined-map 0 fs.store.cache.inodes (IsGoodInode-Writable memory s sound.modest r)
              sound.inode_lines)
            (omega (arith, e', between, r.end_is, room)) in
        let (blocks', w2, run', f') =
          flush_lines-Flushed memory r.blocks s.block_size s.block_count (λ b. b.bytes)
            (Structures.flush_block device s) 0 fs.store.cache.blocks w1
            (IsLined-map 0 fs.store.cache.blocks (IsGoodBlock-Writable memory s sound.modest r)
              sound.block_lines)
            (omega (arith, e, r.end_is, room, f.same_size)) in
        (
          record {
            world = w2;
            cache = prune device.into_sorted_vec (record { inodes = inodes'; blocks = blocks' });
            last_flush = fs.store.last_flush;
          },
          rw (run, run') refl,
          f'.same_size ∙ f.same_size,
          record {
            inodes = λ k line found dirty.
                let g = IsLined-lookup 0 fs.store.cache.inodes k line sound.inode_lines found in
                let size = length-inode_bytes line.value g.fits in
                let last : (k + 1) * inode_size ≤ s.inode_count * inode_size =
                  omega (arith, g.below) in
                f'.outside (r.inodes + k * inode_size) (inode_bytes line.value)
                  (inl (omega (arith, size, last, e', between))) (f.written k line found dirty);
            blocks = f'.written;
          },
          λ p bs h stands.
              f'.outside p bs
                (inl (omega (arith, h, r.behind_superblock, r.inodes_aligned.reaches, between)))
                (f.outside p bs
                  (inl (omega (arith, h, r.behind_superblock, r.inodes_aligned.reaches))) stands),
        )
