-- ===== src/Filesystem/Accounts.antt =====
-- The free counts of the superblock against the bitmaps.
pub mod Frame
pub mod Counted
pub mod Blocks
pub mod Inodes
pub mod Fresh
pub mod Exhaustion
pub mod Invariant
use ftn_tananfs.Base.{ℕ, ◌+◌, ◌<◌, ◌≡◌}
use ftn_tananfs.Outcome.{word}
use ftn_tananfs.Structs.{Bitmap}
use ftn_tananfs.Bitmap.Bits.{IsValid}
use ftn_tananfs.Bitmap.Free.{free_below}
use ftn_tananfs.Filesystem.{Filesystem}

-- A bitmap over `count` indices, `free` of which count as free: `extra` more than are free in it.
pub record IsCounted (extra count free : ℕ) (b : Bitmap) : Type 0 where
  pub valid : IsValid b
  pub covers : b.count ≡ count
  pub counts : free ≡ extra + free_below count b
  pub room : extra + count < word

-- The block count is right, and the inode count is too high by `extra`.
pub record IsAccounted {W : Type 0} (extra : ℕ) (fs : Filesystem W) : Type 0 where
  pub of_inodes : IsCounted extra fs.superblock.inode_count fs.superblock.inodes_free fs.inodes
  pub of_blocks : IsCounted 0 fs.superblock.block_count fs.superblock.blocks_free fs.blocks
