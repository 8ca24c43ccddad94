-- ===== src/Filesystem/Flushing.antt =====
-- src/filesystem/mod.rs, `flush`, `force_flush` and `flush_cache`.
use ftn_tananfs.Base.{ℕ, ◌-◌, ltb, if◌then◌else◌, false, Option, none, some, [], ◌∷◌}
use ftn_tananfs.Outcome.{Outcome, ok, err, panic}
use ftn_tananfs.Outcome.Action.{Action, pure, modify, ◌>>=◌, ◌>>◌}
use ftn_tananfs.Structs.{Superblock}
use ftn_tananfs.Cache.{Map, CacheLine, prune}
use ftn_tananfs.Device.{Device, clock}
use ftn_tananfs.Device.Structures as Structures
use ftn_tananfs.Filesystem.{
  Store, Filesystem, on_world, on_store, on_inode_lines, on_block_lines, dirty_page_max,
}

module _ {W T : Type 0} where
  -- The lines from `line` on, after its round has ended as given: `rest` is the loop on those
  -- behind it, which is not entered after a failure.
  abbrev pub next_line :
      ℕ
      → CacheLine T
      → Map (CacheLine T)
      → (W → Outcome (Unit {0}) × (Map (CacheLine T) × W))
      → Outcome (CacheLine T) × W
      → Outcome (Unit {0}) × (Map (CacheLine T) × W)
  next_line k line m rest (ok clean, w) =
      let (r, (lines, w')) = rest w in (r, ((k, clean) ∷ lines, w'))
  next_line k line m rest (err e, w) = (err e, ((k, line) ∷ m, w))
  next_line k line m rest (panic, w) = (panic, ((k, line) ∷ m, w))

-- A loop of `flush_cache`: the modified lines are written in the order of their keys, and the
-- first failure leaves that line and all behind it as they were.
module _ {W T : Type 0} (write : T → Action W (Unit {0})) where
  unfoldable pub flush_line : CacheLine T → Action W (CacheLine T)
  flush_line line w =
      if line.modified
      then (do write line.value; pure (record line { modified = false })) w
      else (ok line, w)

  unfoldable pub flush_lines : Action (Map (CacheLine T) × W) (Unit {0})
  unfolding flush_line
  flush_lines ([], w) = (ok tt, ([], w))
  flush_lines ((k, line) ∷ m, w) =
      next_line k line m (λ w'. flush_lines (m, w')) (flush_line line w)

module _ {W : Type 0} (device : Device W) where
  unfoldable pub flush_cache : Superblock → Action (Store W) (Unit {0})
  flush_cache s = do
    on_inode_lines (flush_lines (Structures.flush_inode device s))
    on_block_lines (flush_lines (Structures.flush_block device s))
    modify (λ store. record store { cache = prune device.into_sorted_vec store.cache })

  unfoldable pub force_flush : Action (Filesystem W) (Unit {0})
  force_flush fs =
      on_store
        (do
          flush_cache fs.superblock
          on_world (Structures.flush_superblock device fs.superblock)
          on_world (Structures.flush_bitmap device fs.inodes)
          on_world (Structures.flush_bitmap device fs.blocks)
          now ← on_world (clock device)
          modify (λ store. record store { last_flush = some now }))
        fs

  -- `flush`, given `last_flush`; `duration_since` is 0 where the clock is behind it.
  abbrev pub flush_since : Option ℕ → Action (Filesystem W) (Unit {0})
  flush_since none = force_flush
  flush_since (some last) = do
    now ← on_store (on_world (clock device))
    if ltb (now - last) dirty_page_max then pure tt else force_flush

  unfoldable pub flush : Action (Filesystem W) (Unit {0})
  flush fs = flush_since fs.store.last_flush fs
