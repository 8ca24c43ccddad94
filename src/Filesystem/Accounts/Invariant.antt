-- ===== src/Filesystem/Accounts/Invariant.antt =====
-- The accounts, and the layout that the superblock and the bitmaps give, as invariants.
use ftn_tananfs.Base.{ℕ, ◌≡◌, arith, Option, none, some, Bool}
use ftn_tananfs.Outcome.Action.{modify}
use ftn_tananfs.Outcome.Keeps.{Keeps, keeps_rules}
use ftn_tananfs.Structs.{Bitmap}
use ftn_tananfs.Bitmap.{set}
use ftn_tananfs.Device.{Device}
use ftn_tananfs.Filesystem.{Filesystem, on_inodes, on_blocks}
use ftn_tananfs.Filesystem.Flushing.{flush}
use ftn_tananfs.Filesystem.Allocator.{
  acquire_inode, acquire_inode_at, release_inode, acquire_block, acquire_block_at, release_block,
}
use ftn_tananfs.Bitmap.{next_free}
use ftn_tananfs.Filesystem.Accounts.{IsAccounted}
use ftn_tananfs.Filesystem.Accounts.Frame.{Kept, flush-Kept}
use ftn_tananfs.Filesystem.Accounts.Blocks.{acquire_block-IsAccounted, release_block-IsAccounted}
use ftn_tananfs.Filesystem.Accounts.Inodes.{acquire_inode-IsAccounted, release_inode-IsAccounted}
use ftn_tananfs.Filesystem.Invariant.{IsInvariant}

-- What places the structures on the device
pub record Layout : Type 0 where
  pub block_size : ℕ
  pub inode_count : ℕ
  pub block_count : ℕ
  pub magic : ℕ
  pub inodes : ℕ × ℕ
  pub blocks : ℕ × ℕ

unfoldable pub layout : {W : Type 0} → Filesystem W → Layout
layout fs = record {
  block_size = fs.superblock.block_size;
  inode_count = fs.superblock.inode_count;
  block_count = fs.superblock.block_count;
  magic = fs.superblock.magic;
  inodes = (fs.inodes.count, fs.inodes.position);
  blocks = (fs.blocks.count, fs.blocks.position);
}

abbrev pub HasLayout : {W : Type 0} → Layout → Filesystem W → Type 0
HasLayout l fs = layout fs ≡ l

set-placed :
    (b : Bitmap) (i : ℕ) (v : Bool)
    → ((set i v b).1.count ≡ b.count) × ((set i v b).1.position ≡ b.position)
unfolding set
set-placed b i v = ground arith

module _ {W : Type 0} (device : Device W) where
  pub IsAccounted-IsInvariant : (extra : ℕ) → IsInvariant device (IsAccounted extra)
  IsAccounted-IsInvariant extra = record {
    kept = λ fs fs' k a. record {
      of_inodes = rw (k.superblock, k.inodes) a.of_inodes;
      of_blocks = rw (k.superblock, k.blocks) a.of_blocks;
    };
    acquires_inode = record { at = acquire_inode-IsAccounted device };
    releases_inode = λ i. record { at = λ fs. release_inode-IsAccounted device fs i };
    acquires_block = record { at = acquire_block-IsAccounted device };
    releases_block = λ i. record { at = λ fs. release_block-IsAccounted device fs i };
  }

  module _ (l : Layout) where
    HasLayout-Kept : (fs fs' : Filesystem W) → Kept fs fs' → HasLayout l fs → HasLayout l fs'
    unfolding layout
    HasLayout-Kept fs fs' k h = rw (k.superblock, k.inodes, k.blocks) h

    Keeps-flush : Keeps (HasLayout l) (flush device)
    Keeps-flush = record { at = λ fs. HasLayout-Kept fs _ (flush-Kept device fs) }

    Keeps-set_inode : (i : ℕ) (v : Bool) → Keeps (HasLayout l) (on_inodes {W = W} (set i v))
    unfolding layout
    Keeps-set_inode i v = record {
      at = λ fs h. let (count, position) = set-placed fs.inodes i v in rw (count, position) h;
    }

    Keeps-set_block : (i : ℕ) (v : Bool) → Keeps (HasLayout l) (on_blocks {W = W} (set i v))
    unfolding layout
    Keeps-set_block i v = record {
      at = λ fs h. let (count, position) = set-placed fs.blocks i v in rw (count, position) h;
    }

    Keeps-inodes_free :
        (n : ℕ)
        → Keeps (HasLayout l) (
            modify (λ (fs : Filesystem W). record fs {
              superblock = record fs.superblock { inodes_free = n };
            }))
    unfolding layout
    Keeps-inodes_free n = record { at = λ fs h. h }

    Keeps-blocks_free :
        (n : ℕ)
        → Keeps (HasLayout l) (
            modify (λ (fs : Filesystem W). record fs {
              superblock = record fs.superblock { blocks_free = n };
            }))
    unfolding layout
    Keeps-blocks_free n = record { at = λ fs h. h }

    ruleset layout_rules = (
      Keeps-inodes_free, Keeps-blocks_free, keeps_rules, Keeps-set_inode, Keeps-set_block,
      Keeps-flush,
    )

    Keeps-acquire_inode_at :
        (found : Option ℕ) → Keeps (HasLayout l) (acquire_inode_at device found)
    Keeps-acquire_inode_at none = search layout_rules
    Keeps-acquire_inode_at (some i) = search layout_rules depth 20

    Keeps-acquire_block_at :
        (found : Option ℕ) → Keeps (HasLayout l) (acquire_block_at device found)
    Keeps-acquire_block_at none = search layout_rules
    Keeps-acquire_block_at (some i) = search layout_rules depth 20

    Keeps-release_inode : (i : ℕ) → Keeps (HasLayout l) (release_inode device i)
    unfolding release_inode
    Keeps-release_inode i = search layout_rules depth 20

    Keeps-release_block : (i : ℕ) → Keeps (HasLayout l) (release_block device i)
    unfolding release_block
    Keeps-release_block i = search layout_rules depth 20

    pub HasLayout-IsInvariant : IsInvariant device (HasLayout l)
    unfolding acquire_inode acquire_block
    HasLayout-IsInvariant = record {
      kept = HasLayout-Kept;
      acquires_inode = record { at = λ fs. (Keeps-acquire_inode_at (next_free fs.inodes 0)).at fs };
      releases_inode = Keeps-release_inode;
      acquires_block = record { at = λ fs. (Keeps-acquire_block_at (next_free fs.blocks 0)).at fs };
      releases_block = Keeps-release_block;
    }
