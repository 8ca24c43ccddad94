-- ===== src/Filesystem/Persistence/Reload.antt =====
-- A filesystem is loaded from its device as it was flushed to it.
use ftn_tananfs.Base.{ℕ, ◌+◌, ◌*◌, ◌≤◌, ◌≡◌, refl, sym, ap, ◌∙◌, arith, true, false, some, length}
use ftn_tananfs.Outcome.{ok}
use ftn_tananfs.Structs.{Inode, Block, inode_size}
use ftn_tananfs.Structs.Packed.{inode_bytes, length-inode_bytes}
use ftn_tananfs.Superblock.Regions.{Regions}
use ftn_tananfs.Superblock.Positions.{inode_position-within, block_position-within}
use ftn_tananfs.Bitmap.{get as get_bit}
use ftn_tananfs.Cache.{CacheLine, lookup, get_line}
use ftn_tananfs.Device.{Device}
use ftn_tananfs.Device.Holds.{Holds, Holds-at}
use ftn_tananfs.Device.Memory.{IsMemory}
use ftn_tananfs.Device.Images.{load_inode-Reads, load_block-Reads}
use ftn_tananfs.Device.Structures as Structures
use ftn_tananfs.Filesystem.{Filesystem, Store}
use ftn_tananfs.Filesystem.Flushing.{force_flush}
use ftn_tananfs.Filesystem.Mount.{load}
use ftn_tananfs.Filesystem.Access.{
  cache_inode, cache_block, load_inode, cached_inode, found_inode, load_block, stored_block,
  cached_block, found_block,
}
use ftn_tananfs.Filesystem.Persistence.Lines.{IsLined-lookup}
use ftn_tananfs.Filesystem.Persistence.Sound.{IsSound, IsGoodInode, IsGoodBlock}
use ftn_tananfs.Filesystem.Persistence.Load.{reloaded, remounted}

module _ {W : Type 0} {device : Device W} (memory : IsMemory device) (fs : Filesystem W)
    (r : Regions fs.superblock) (sound : IsSound fs r) where
  -- In the filesystem as it was loaded, an inode or block that stands on the device is loaded.
  load_inode-reloaded :
      (n : Inode) (k : ℕ) (w : W)
      → IsGoodInode fs.superblock k n
      → get_bit fs.inodes k ≡ ok true
      → r.end ≤ length (memory.content w)
      → Holds (r.inodes + k * inode_size) (inode_bytes n) (memory.content w)
      → (load_inode device k (reloaded fs w)).0 ≡ ok n
  unfolding load_inode cached_inode found_inode get_line cache_inode
  load_inode-reloaded n k w g used room on =
      let s = fs.superblock in
      let w0 = (device.now w).1 in
      let same = memory.ticks w in
      let index : n.index ≡ k = g.index in
      let at_k : r.inodes + n.index * inode_size ≡ r.inodes + k * inode_size =
        ap (λ i. r.inodes + i * inode_size) index in
      let within = (inode_position-within s sound.modest r k g.below).1 in
      let (w1, e1, c1) =
        (load_inode-Reads memory sound.modest r n (rw index g.below) g.fits).at w0
          (omega (arith, at_k, ap length same, within, room, length-inode_bytes n g.fits, r.end_is))
          (Holds-at _ (r.inodes + k * inode_size) (inode_bytes n) _ (memory.content w) at_k same
            on) in
      rw (load_inode, used, (ap (λ i. Structures.load_inode device s i w0) (sym index) ∙ e1)) refl

  load_block-reloaded :
      (b : Block) (k : ℕ) (w : W)
      → IsGoodBlock fs.superblock k b
      → get_bit fs.blocks k ≡ ok true
      → r.end ≤ length (memory.content w)
      → Holds (r.blocks + k * fs.superblock.block_size) b.bytes (memory.content w)
      → (load_block device k false (reloaded fs w)).0 ≡ ok b
  unfolding load_block stored_block cached_block found_block get_line cache_block
  load_block-reloaded b k w g used room on =
      let s = fs.superblock in
      let w0 = (device.now w).1 in
      let same = memory.ticks w in
      let index : b.index ≡ k = g.index in
      let at_k : r.blocks + b.index * s.block_size ≡ r.blocks + k * s.block_size =
        ap (λ i. r.blocks + i * s.block_size) index in
      let within = (block_position-within s sound.modest r k g.below).1 in
      let (w1, e1, c1) =
        (load_block-Reads memory sound.modest r b (rw index g.below) g.sized).at w0
          (omega (arith, at_k, ap length same, within, room, g.sized))
          (Holds-at _ (r.blocks + k * s.block_size) b.bytes _ (memory.content w) at_k same on) in
      rw (load_block, used, (ap (λ i. Structures.load_block device s i w0) (sym index) ∙ e1)) refl

  -- With a device that does not fail and is as large as the layout: an inode that stands in a
  -- modified line of the cache when the filesystem is flushed, and whose bit is set, is what
  -- `load_inode` gives in the filesystem that `load` then finds on the device.
  pub load_inode-load-force_flush :
      (k : ℕ) (line : CacheLine Inode)
      → r.end ≤ length (memory.content fs.store.world)
      → lookup k fs.store.cache.inodes ≡ some line
      → line.modified ≡ true
      → get_bit fs.inodes k ≡ ok true
      → (store : Store W) × (w : W) × (force_flush device fs ≡ (ok tt, record fs { store = store }))
        × (load device fs.superblock.block_size store.world ≡ ok (reloaded fs w))
        × ((load_inode device k (reloaded fs w)).0 ≡ ok line.value)
  load_inode-load-force_flush k line room found dirty used =
      let (store, w, run, read, len, on) = remounted memory fs r sound room in
      (
        store,
        w,
        run,
        read,
        load_inode-reloaded line.value k w
            (IsLined-lookup 0 fs.store.cache.inodes k line sound.inode_lines found) used
            (rw len room) (on.inodes k line found dirty),
      )

  -- With a device that does not fail and is as large as the layout: a block that stands in a
  -- modified line of the cache when the filesystem is flushed, and whose bit is set, is what
  -- `load_block` gives in the filesystem that `load` then finds on the device.
  pub load_block-load-force_flush :
      (k : ℕ) (line : CacheLine Block)
      → r.end ≤ length (memory.content fs.store.world)
      → lookup k fs.store.cache.blocks ≡ some line
      → line.modified ≡ true
      → get_bit fs.blocks k ≡ ok true
      → (store : Store W) × (w : W) × (force_flush device fs ≡ (ok tt, record fs { store = store }))
        × (load device fs.superblock.block_size store.world ≡ ok (reloaded fs w))
        × ((load_block device k false (reloaded fs w)).0 ≡ ok line.value)
  load_block-load-force_flush k line room found dirty used =
      let (store, w, run, read, len, on) = remounted memory fs r sound room in
      (
        store,
        w,
        run,
        read,
        load_block-reloaded line.value k w
            (IsLined-lookup 0 fs.store.cache.blocks k line sound.block_lines found) used
            (rw len room) (on.blocks k line found dirty),
      )
