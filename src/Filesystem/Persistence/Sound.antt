-- ===== src/Filesystem/Persistence/Sound.antt =====
-- Filesystems that can be flushed: what is in memory has its place on the device.
use ftn_tananfs.Base.{ℕ, ◌+◌, ◌<◌, ◌≡◌, sym, length}
use ftn_tananfs.Structs.{Superblock, Inode, Block, inode_size}
use ftn_tananfs.Structs.Packed.{inode_bytes, InodeFits, SuperblockFits, length-inode_bytes}
use ftn_tananfs.Superblock.Regions.{Regions, IsModest}
use ftn_tananfs.Device.{Device}
use ftn_tananfs.Device.Memory.{IsMemory}
use ftn_tananfs.Device.Images.{IsWhole, flush_inode-Writes, flush_block-Writes}
use ftn_tananfs.Device.Structures as Structures
use ftn_tananfs.Filesystem.{Filesystem}
use ftn_tananfs.Filesystem.Persistence.Lines.{IsLined, IsWritable}

-- An inode or block with its index as its key in the cache, that has a place on the device
pub record IsGoodInode (s : Superblock) (k : ℕ) (n : Inode) : Type 0 where
  pub index : n.index ≡ k
  pub below : k < s.inode_count
  pub fits : InodeFits n

pub record IsGoodBlock (s : Superblock) (k : ℕ) (b : Block) : Type 0 where
  pub index : b.index ≡ k
  pub below : k < s.block_count
  pub sized : length b.bytes ≡ s.block_size

pub record IsSound {W : Type 0} (fs : Filesystem W) (r : Regions fs.superblock) : Type 0 where
  pub modest : IsModest fs.superblock
  pub fits : SuperblockFits fs.superblock
  pub inodes : IsWhole fs.inodes r.inode_bitmap
  pub inode_count : fs.inodes.count ≡ fs.superblock.inode_count
  pub inodes_at : fs.inodes.position ≡ r.bitmaps
  pub blocks : IsWhole fs.blocks r.block_bitmap
  pub block_count : fs.blocks.count ≡ fs.superblock.block_count
  pub blocks_at : fs.blocks.position ≡ r.bitmaps + r.inode_bitmap
  pub inode_lines : IsLined (IsGoodInode fs.superblock) 0 fs.store.cache.inodes
  pub block_lines : IsLined (IsGoodBlock fs.superblock) 0 fs.store.cache.blocks

module _ {W : Type 0} {device : Device W} (memory : IsMemory device) (s : Superblock)
    (m : IsModest s) (r : Regions s) where
  abbrev pub InodeWritable : ℕ → Inode → Type 0
  InodeWritable =
      IsWritable memory r.inodes inode_size s.inode_count inode_bytes
        (Structures.flush_inode device s)

  abbrev pub BlockWritable : ℕ → Block → Type 0
  BlockWritable =
      IsWritable memory r.blocks s.block_size s.block_count (λ b. b.bytes)
        (Structures.flush_block device s)

  pub IsGoodInode-Writable : (k : ℕ) (n : Inode) → IsGoodInode s k n → InodeWritable k n
  IsGoodInode-Writable k n g = record {
    below = g.below;
    sized = length-inode_bytes n g.fits;
    writes = rw (sym g.index) (flush_inode-Writes memory m r n (rw g.index g.below));
  }

  pub IsGoodBlock-Writable : (k : ℕ) (b : Block) → IsGoodBlock s k b → BlockWritable k b
  IsGoodBlock-Writable k b g = record {
    below = g.below;
    sized = g.sized;
    writes = rw (sym g.index) (flush_block-Writes memory m r b (rw g.index g.below));
  }
