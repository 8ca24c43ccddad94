-- ===== src/Filesystem/Pruned.antt =====
-- A flush leaves the cached inodes and blocks as they are while the cache is small.
use ftn_tananfs.Base.{
  ℕ, ◌+◌, ◌≤◌, ◌≡◌, ◌-◌, refl, ◌∙◌, arith, ltb, if◌then◌else◌, Bool, true, false, Option, none,
  some, List, length, le→leb,
}
use ftn_tananfs.Outcome.{Outcome, ok, err, panic}
use ftn_tananfs.Outcome.Action.{Action, continue, pure, ◌>>=◌, modify}
use ftn_tananfs.Structs.{Superblock, Inode, Block}
use ftn_tananfs.Cache.{Cache, LruLine, lookup, prune, lru_max_entries}
use ftn_tananfs.Device.{Device, clock}
use ftn_tananfs.Device.Structures as Structures
use ftn_tananfs.Filesystem.{
  Store, Filesystem, on_world, on_inode_lines, on_block_lines, dirty_page_max,
}
use ftn_tananfs.Filesystem.Flushing.{flush, flush_since, force_flush, flush_cache, flush_lines}
use ftn_tananfs.Filesystem.Lines.{value_of, flush_lines-Settled}
use ftn_tananfs.Filesystem.Accounts.Frame.{after}

-- The cache is not over the size at which it is pruned.
abbrev pub IsSmall : {W : Type 0} → Store W → Type 0
IsSmall s = length s.cache.inodes + length s.cache.blocks ≤ lru_max_entries

prune_small :
    (sorted : List LruLine → List LruLine) (c : Cache)
    → length c.inodes + length c.blocks ≤ lru_max_entries
    → prune sorted c ≡ c
unfolding prune
prune_small sorted c h = rw (le→leb _ _ h)

module _ {W : Type 0} where
  -- A small cache stays small, with the same inodes and blocks in it.
  pub record CacheKept (s s' : Store W) : Type 0 where
    pub small : IsSmall s → IsSmall s'
    pub values :
        IsSmall s
        → (j : ℕ) → value_of (lookup j s'.cache.blocks) ≡ value_of (lookup j s.cache.blocks)
    pub inode_values :
        IsSmall s
        → (j : ℕ) → value_of (lookup j s'.cache.inodes) ≡ value_of (lookup j s.cache.inodes)

  CacheKept-trans : {s s' s'' : Store W} → CacheKept s s' → CacheKept s' s'' → CacheKept s s''
  CacheKept-trans a b = record {
    small = λ h. b.small (a.small h);
    values = λ h j. b.values (a.small h) j ∙ a.values h j;
    inode_values = λ h j. b.inode_values (a.small h) j ∙ a.inode_values h j;
  }

  CacheKept-world : {A : Type 0} (m : Action W A) (s : Store W) → CacheKept s (after (on_world m s))
  CacheKept-world m s = record { small = λ h. h; values = λ h j. refl; inode_values = λ h j. refl }

  continued :
      {A B : Type 0} (s s' : Store W) (r : Outcome A) (f : A → Action (Store W) B)
      → CacheKept s s'
      → ((a : A) (t : Store W) → CacheKept t (after (f a t)))
      → CacheKept s (after (continue r f s'))
  continued s s' (ok a) f kept later = CacheKept-trans kept (later a s')
  continued s s' (err e) f kept later = kept
  continued s s' panic f kept later = kept

  CacheKept-bind :
      {A B : Type 0} (m : Action (Store W) A) (f : A → Action (Store W) B)
      → ((s : Store W) → CacheKept s (after (m s)))
      → ((a : A) (t : Store W) → CacheKept t (after (f a t)))
      → (s : Store W) → CacheKept s (after ((m >>= f) s))
  CacheKept-bind m f first later s = continued s (after (m s)) (m s).0 f (first s) later

module _ {W : Type 0} (device : Device W) where
  inode_lines-CacheKept :
      (write : Inode → Action W (Unit {0})) (s : Store W)
      → CacheKept s (after (on_inode_lines (flush_lines write) s))
  inode_lines-CacheKept write s =
      let lines = flush_lines-Settled write s.cache.inodes s.world in
      record {
        small = λ h. omega (arith, lines.size, h);
        values = λ h j. refl;
        inode_values = λ h j. lines.values j;
      }

  block_lines-CacheKept :
      (write : Block → Action W (Unit {0})) (s : Store W)
      → CacheKept s (after (on_block_lines (flush_lines write) s))
  block_lines-CacheKept write s =
      let lines = flush_lines-Settled write s.cache.blocks s.world in
      record {
        small = λ h. omega (arith, lines.size, h);
        values = λ h j. lines.values j;
        inode_values = λ h j. refl;
      }

  prune-CacheKept :
      (s : Store W) → CacheKept s (record s { cache = prune device.into_sorted_vec s.cache })
  prune-CacheKept s = record {
    small = λ h. rw (prune_small device.into_sorted_vec s.cache h) h;
    values = λ h j. rw (prune_small device.into_sorted_vec s.cache h);
    inode_values = λ h j. rw (prune_small device.into_sorted_vec s.cache h);
  }

  flush_cache-CacheKept :
      (sb : Superblock) (s : Store W) → CacheKept s (after (flush_cache device sb s))
  unfolding flush_cache
  flush_cache-CacheKept sb =
      CacheKept-bind (on_inode_lines (flush_lines (Structures.flush_inode device sb))) _
        (inode_lines-CacheKept (Structures.flush_inode device sb))
        (λ u.
          CacheKept-bind (on_block_lines (flush_lines (Structures.flush_block device sb))) _
            (block_lines-CacheKept (Structures.flush_block device sb)) (λ v. prune-CacheKept))

  stamped-CacheKept : (t : Option ℕ) (s : Store W) → CacheKept s (record s { last_flush = t })
  stamped-CacheKept t s = record {
    small = λ h. h;
    values = λ h j. refl;
    inode_values = λ h j. refl;
  }

  world_then :
      {A B : Type 0} (m : Action W A) (f : A → Action (Store W) B)
      → ((a : A) (t : Store W) → CacheKept t (after (f a t)))
      → (s : Store W) → CacheKept s (after ((on_world m >>= f) s))
  world_then m f later = CacheKept-bind (on_world m) f (CacheKept-world m) later

  force_flush-CacheKept :
      (fs : Filesystem W) → CacheKept fs.store (after (force_flush device fs)).store
  unfolding force_flush
  force_flush-CacheKept fs =
      CacheKept-bind (flush_cache device fs.superblock) _ (flush_cache-CacheKept fs.superblock)
        (λ a. world_then (Structures.flush_superblock device fs.superblock) _ (λ b.
          world_then (Structures.flush_bitmap device fs.inodes) _ (λ c.
            world_then (Structures.flush_bitmap device fs.blocks) _ (λ d.
              world_then (clock device)
                (λ now. modify (λ store. record store { last_flush = some now }))
                (λ now. stamped-CacheKept (some now))))))
        fs.store

  recently-CacheKept :
      (recent : Bool) (fs : Filesystem W)
      → CacheKept fs.store (after ((if recent then pure tt else force_flush device) fs)).store
  recently-CacheKept true fs = record {
    small = λ h. h;
    values = λ h j. refl;
    inode_values = λ h j. refl;
  }
  recently-CacheKept false fs = force_flush-CacheKept fs

  flush_since-CacheKept :
      (last : Option ℕ) (fs : Filesystem W)
      → CacheKept fs.store (after (flush_since device last fs)).store
  flush_since-CacheKept none fs = force_flush-CacheKept fs
  flush_since-CacheKept (some last) fs =
      let (now, w) = device.now fs.store.world in
      let kept =
        recently-CacheKept (ltb (now - last) dirty_page_max)
          (record fs { store = record fs.store { world = w } }) in
      record { small = kept.small; values = kept.values; inode_values = kept.inode_values }

  -- While the cache is not over its limit, a flush keeps every cached inode and block, however it ends.
  pub flush-CacheKept : (fs : Filesystem W) → CacheKept fs.store (after (flush device fs)).store
  unfolding flush
  flush-CacheKept fs = flush_since-CacheKept fs.store.last_flush fs
