-- ===== src/Device/Structures.antt =====
-- src/structs/superblock.rs, bitmap.rs, inode.rs and block.rs: each structure is read and written
-- whole, at its position.
use ftn_tananfs.Base.{ℕ, replicate}
use ftn_tananfs.Outcome.Action.{Action, pure, lift, ◌>>=◌, ◌>>◌}
use ftn_tananfs.Structs.{Superblock, Inode, Block, Bitmap, superblock_size, inode_size}
use ftn_tananfs.Structs.Packed.{superblock_bytes, superblock_of_bytes, inode_bytes, inode_of_bytes}
use ftn_tananfs.Structs.Size.{size_in_bytes, size_in_usize}
use ftn_tananfs.Superblock.{inode_position, block_position}
use ftn_tananfs.Bitmap.{load_chunks, flush_chunks}
use ftn_tananfs.Device.{Device}

module _ {W : Type 0} (device : Device W) where
  -- `Superblock::load`
  unfoldable pub load_superblock : ℕ → Action W Superblock
  load_superblock block_size = do
    device.seek block_size
    raw ← device.read_exact superblock_size
    pure (superblock_of_bytes raw)

  -- `Superblock::flush`
  unfoldable pub flush_superblock : Superblock → Action W (Unit {0})
  flush_superblock s = do device.seek s.block_size; device.write_all (superblock_bytes s)

  -- `Bitmap::load_content`
  unfoldable pub load_content : Bitmap → Action W Bitmap
  load_content b = do
    buffer_size ← lift (size_in_bytes b.count)
    buffer ← device.read_exact buffer_size
    chunks ← lift (size_in_usize b.count)
    words ← lift (load_chunks chunks b.bitfield buffer)
    pure (record b { bitfield = words })

  -- `Bitmap::flush_content`
  unfoldable pub flush_content : Bitmap → Action W (Unit {0})
  flush_content b = do
    buffer_size ← lift (size_in_bytes b.count)
    chunks ← lift (size_in_usize b.count)
    buffer ← lift (flush_chunks chunks b.bitfield (replicate buffer_size 0))
    device.write_all buffer

  -- `Bitmap::load`
  unfoldable pub load_bitmap : Bitmap → Action W Bitmap
  load_bitmap b = do device.seek b.position; load_content b

  -- `Bitmap::flush`
  unfoldable pub flush_bitmap : Bitmap → Action W (Unit {0})
  flush_bitmap b = do device.seek b.position; flush_content b

  -- `Inode::load`
  unfoldable pub load_inode : Superblock → ℕ → Action W Inode
  load_inode s index = do
    position ← lift (inode_position s index)
    device.seek position
    raw ← device.read_exact inode_size
    pure (inode_of_bytes raw)

  -- `Inode::flush`
  unfoldable pub flush_inode : Superblock → Inode → Action W (Unit {0})
  flush_inode s inode = do
    position ← lift (inode_position s inode.index)
    device.seek position
    device.write_all (inode_bytes inode)

  -- `Block::load`
  unfoldable pub load_block : Superblock → ℕ → Action W Block
  load_block s index = do
    position ← lift (block_position s index)
    device.seek position
    raw ← device.read_exact s.block_size
    pure (record { index = index; bytes = raw })

  -- `Block::flush`
  unfoldable pub flush_block : Superblock → Block → Action W (Unit {0})
  flush_block s block = do
    position ← lift (block_position s block.index)
    device.seek position
    device.write_all block.bytes
