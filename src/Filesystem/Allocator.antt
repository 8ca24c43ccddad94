-- ===== src/Filesystem/Allocator.antt =====
-- src/filesystem/mod.rs: inodes and blocks are acquired and released.
use ftn_tananfs.Base.{ℕ, leb, true, false, not, Option, none, some, replicate}
use ftn_tananfs.Error.{Error}
use ftn_tananfs.Outcome.{◌+u◌, ◌-u◌}
use ftn_tananfs.Outcome.Action.{Action, pure, raise, gets, gets_ok, modify, raise_if, ◌>>=◌, ◌>>◌}
use ftn_tananfs.Structs.{Block}
use ftn_tananfs.Bitmap.{next_free, set as set_bit, get as get_bit}
use ftn_tananfs.Device.{Device}
use ftn_tananfs.Filesystem.{Filesystem, on_inodes, on_blocks}
use ftn_tananfs.Filesystem.Flushing.{flush}

module _ {W : Type 0} (device : Device W) where
  -- `acquire_inode`, given what `next_free` found
  abbrev pub acquire_inode_at : Option ℕ → Action (Filesystem W) ℕ
  acquire_inode_at none = raise Error.out_of_memory
  acquire_inode_at (some index) = do
    count ← gets (λ fs. fs.superblock.inode_count)
    raise_if (leb count index) Error.out_of_memory
    free ← gets_ok (λ fs. fs.superblock.inodes_free -u 1)
    modify (λ fs. record fs { superblock = record fs.superblock { inodes_free = free } })
    on_inodes (set_bit index true)
    flush device
    pure index

  unfoldable pub acquire_inode : Action (Filesystem W) ℕ
  acquire_inode fs = acquire_inode_at (next_free fs.inodes 0) fs

  unfoldable pub release_inode : ℕ → Action (Filesystem W) (Unit {0})
  release_inode index = do
    used ← gets_ok (λ fs. get_bit fs.inodes index)
    raise_if (not used) Error.double_release
    free ← gets_ok (λ fs. fs.superblock.inodes_free +u 1)
    modify (λ fs. record fs { superblock = record fs.superblock { inodes_free = free } })
    on_inodes (set_bit index false)
    flush device

  -- `acquire_block`, given what `next_free` found
  abbrev pub acquire_block_at : Option ℕ → Action (Filesystem W) ℕ
  acquire_block_at none = raise Error.out_of_memory
  acquire_block_at (some index) = do
    count ← gets (λ fs. fs.superblock.block_count)
    raise_if (leb count index) Error.out_of_memory
    free ← gets_ok (λ fs. fs.superblock.blocks_free -u 1)
    modify (λ fs. record fs { superblock = record fs.superblock { blocks_free = free } })
    on_blocks (set_bit index true)
    flush device
    pure index

  unfoldable pub acquire_block : Action (Filesystem W) ℕ
  acquire_block fs = acquire_block_at (next_free fs.blocks 0) fs

  unfoldable pub release_block : ℕ → Action (Filesystem W) (Unit {0})
  release_block index = do
    used ← gets_ok (λ fs. get_bit fs.blocks index)
    raise_if (not used) Error.double_release
    free ← gets_ok (λ fs. fs.superblock.blocks_free +u 1)
    modify (λ fs. record fs { superblock = record fs.superblock { blocks_free = free } })
    on_blocks (set_bit index false)
    flush device

  -- `Block::new` of src/structs/block.rs
  unfoldable pub new_block : Action (Filesystem W) Block
  new_block = do
    index ← acquire_block
    gets (λ fs. record { index = index; bytes = replicate fs.superblock.block_size 0 })
