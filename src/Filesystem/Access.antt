-- ===== src/Filesystem/Access.antt =====
-- src/filesystem/mod.rs: inodes and blocks are loaded and flushed through the cache.
use ftn_tananfs.Base.{ℕ, if◌then◌else◌, Bool, true, false, not, Option, none, some, replicate}
use ftn_tananfs.Error.{Error}
use ftn_tananfs.Outcome.{Outcome, ok, err, panic}
use ftn_tananfs.Outcome.Action.{Action, pure, gets, gets_ok, raise_if, ◌>>=◌, ◌>>◌}
use ftn_tananfs.Structs.{Inode, Block}
use ftn_tananfs.Bitmap.{get as get_bit}
use ftn_tananfs.Cache.{inode_eq, block_eq, get_line, set_line}
use ftn_tananfs.Device.{Device, clock}
use ftn_tananfs.Device.Structures as Structures
use ftn_tananfs.Filesystem.{Store, Filesystem, on_world, on_store, on_inode_lines, on_block_lines}
use ftn_tananfs.Filesystem.Flushing.{flush}

module _ {W : Type 0} (device : Device W) where
  -- The cache methods; each reads the clock.
  unfoldable pub cached_inode : ℕ → Action (Store W) (Option Inode)
  cached_inode index = do
    now ← on_world (clock device)
    on_inode_lines
        (λ (lines, w). let (found, lines') = get_line index now lines in (ok found, (lines', w)))

  unfoldable pub cached_block : ℕ → Action (Store W) (Option Block)
  cached_block index = do
    now ← on_world (clock device)
    on_block_lines
        (λ (lines, w). let (found, lines') = get_line index now lines in (ok found, (lines', w)))

  unfoldable pub cache_inode : Inode → Action (Store W) (Unit {0})
  cache_inode inode = do
    now ← on_world (clock device)
    on_inode_lines (λ (lines, w). (ok tt, (set_line inode_eq inode.index inode now lines, w)))

  unfoldable pub cache_block : Block → Action (Store W) (Unit {0})
  cache_block block = do
    now ← on_world (clock device)
    on_block_lines (λ (lines, w). (ok tt, (set_line block_eq block.index block now lines, w)))

  -- `load_inode`, given what the cache holds
  unfoldable pub found_inode : ℕ → Option Inode → Action (Filesystem W) Inode
  found_inode index (some inode) = pure inode
  found_inode index none = do
    s ← gets (λ fs. fs.superblock)
    inode ← on_store (on_world (Structures.load_inode device s index))
    on_store (cache_inode inode)
    pure inode

  unfoldable pub load_inode : ℕ → Action (Filesystem W) Inode
  load_inode index = do
    used ← gets_ok (λ fs. get_bit fs.inodes index)
    raise_if (not used) Error.out_of_bounds
    found ← on_store (cached_inode index)
    found_inode index found

  -- `Block::with_index`
  unfoldable pub block_with_index : ℕ → Filesystem W → Outcome Block
  block_with_index index fs = elim (get_bit fs.blocks index) [
    | ok true ↦ ok (record { index = index; bytes = replicate fs.superblock.block_size 0 })
    | ok false ↦ err Error.not_found
    | err e ↦ err e
    | panic ↦ panic
  ]

  -- The first branch of `load_block`
  unfoldable pub zeroed_block : ℕ → Action (Filesystem W) Block
  zeroed_block index = do
    block ← gets_ok (block_with_index index)
    on_store (cache_block block)
    pure block

  -- The second branch of `load_block`, given what the cache holds
  unfoldable pub found_block : ℕ → Option Block → Action (Filesystem W) Block
  found_block index (some block) = pure block
  found_block index none = do
    s ← gets (λ fs. fs.superblock)
    block ← on_store (on_world (Structures.load_block device s index))
    on_store (cache_block block)
    pure block

  -- The second branch of `load_block`
  unfoldable pub stored_block : ℕ → Action (Filesystem W) Block
  stored_block index = do found ← on_store (cached_block index); found_block index found

  unfoldable pub load_block : ℕ → Bool → Action (Filesystem W) Block
  load_block index is_empty = do
    used ← gets_ok (λ fs. get_bit fs.blocks index)
    raise_if (not used) Error.out_of_bounds
    if is_empty then zeroed_block index else stored_block index

  unfoldable pub flush_inode : Inode → Action (Filesystem W) (Unit {0})
  flush_inode inode = do on_store (cache_inode inode); flush device

  unfoldable pub flush_block : Block → Action (Filesystem W) (Unit {0})
  flush_block block = do on_store (cache_block block); flush device
