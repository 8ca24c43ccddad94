-- ===== src/Filesystem/Invariant.antt =====
-- Invariants of the superblock and the bitmaps in memory, through every call on the filesystem and
-- on an object that shares it.
pub mod Shared
use ftn_tananfs.Base.{ℕ, refl, Bool, true, false, not, Option, none, some}
use ftn_tananfs.Outcome.{Outcome}
use ftn_tananfs.Outcome.Action.{Action, lift, pure, raise_if}
use ftn_tananfs.Error.{Error}
use ftn_tananfs.Bitmap.{get as get_bit}
use ftn_tananfs.Outcome.Keeps.{Keeps, Keeps-bind, Keeps-if, Keeps-elim_option, keeps_rules}
use ftn_tananfs.Structs.{Inode, Block}
use ftn_tananfs.Device.{Device}
use ftn_tananfs.Filesystem.{Store, Filesystem, on_store}
use ftn_tananfs.Filesystem.Flushing.{flush, force_flush}
use ftn_tananfs.Filesystem.Allocator.{acquire_inode, release_inode, acquire_block, release_block}
use ftn_tananfs.Filesystem.Access.{
  load_inode, found_inode, found_block, load_block, stored_block, zeroed_block, flush_inode,
  flush_block,
}
use ftn_tananfs.Filesystem.Accounts.{IsAccounted}
use ftn_tananfs.Filesystem.Accounts.Frame.{Kept, flush-Kept, force_flush-Kept}
use ftn_tananfs.Filesystem.Accounts.Blocks.{acquire_block-IsAccounted, release_block-IsAccounted}
use ftn_tananfs.Filesystem.Accounts.Inodes.{acquire_inode-IsAccounted, release_inode-IsAccounted}

-- What makes `P` an invariant: it is about the superblock and the bitmaps, and the four calls that
-- change these keep it.
pub record IsInvariant {W : Type 0} (device : Device W) (P : Filesystem W → Type 0) : Type 0 where
  pub kept : (fs fs' : Filesystem W) → Kept fs fs' → P fs → P fs'
  pub acquires_inode : Keeps P (acquire_inode device)
  pub releases_inode : (i : ℕ) → Keeps P (release_inode device i)
  pub acquires_block : Keeps P (acquire_block device)
  pub releases_block : (i : ℕ) → Keeps P (release_block device i)

module _ {W : Type 0} {device : Device W} {P : Filesystem W → Type 0}
    (invariant : IsInvariant device P) where
  pub Keeps-on_store : {A : Type 0} (m : Action (Store W) A) → Keeps P (on_store m)
  Keeps-on_store m = record {
    at = λ fs. invariant.kept fs _ (record { superblock = refl; inodes = refl; blocks = refl });
  }

  pub Keeps-force_flush : Keeps P (force_flush device)
  Keeps-force_flush = record { at = λ fs. invariant.kept fs _ (force_flush-Kept device fs) }

  pub Keeps-flush : Keeps P (flush device)
  Keeps-flush = record { at = λ fs. invariant.kept fs _ (flush-Kept device fs) }

  pub Keeps-acquire_inode : Keeps P (acquire_inode device)
  Keeps-acquire_inode = invariant.acquires_inode

  pub Keeps-release_inode : (i : ℕ) → Keeps P (release_inode device i)
  Keeps-release_inode = invariant.releases_inode

  pub Keeps-acquire_block : Keeps P (acquire_block device)
  Keeps-acquire_block = invariant.acquires_block

  pub Keeps-release_block : (i : ℕ) → Keeps P (release_block device i)
  Keeps-release_block = invariant.releases_block

  ruleset store_rules = (keeps_rules, Keeps-on_store, Keeps-flush)

  Keeps-found_inode : (i : ℕ) (o : Option Inode) → Keeps P (found_inode device i o)
  unfolding found_inode
  Keeps-found_inode i (some inode) = search store_rules
  Keeps-found_inode i none = search store_rules

  pub Keeps-load_inode : (i : ℕ) → Keeps P (load_inode device i)
  unfolding load_inode
  Keeps-load_inode i = search (store_rules, Keeps-found_inode) depth 20

  Keeps-found_block : (i : ℕ) (o : Option Block) → Keeps P (found_block device i o)
  unfolding found_block
  Keeps-found_block i (some block) = search store_rules
  Keeps-found_block i none = search store_rules

  pub Keeps-load_block : (i : ℕ) (b : Bool) → Keeps P (load_block device i b)
  unfolding load_block zeroed_block stored_block
  Keeps-load_block i b = search (store_rules, Keeps-found_block) depth 20

  pub Keeps-flush_inode : (inode : Inode) → Keeps P (flush_inode device inode)
  unfolding flush_inode
  Keeps-flush_inode inode = search store_rules

  pub Keeps-flush_block : (block : Block) → Keeps P (flush_block device block)
  unfolding flush_block
  Keeps-flush_block block = search store_rules
