-- ===== src/Fuse/Getattr.antt =====
-- `getattr` after `setattr`.
use ftn_tananfs.Base.{
  ℕ, ◌+◌, ◌<◌, ◌≡◌, refl, sym, ap, ◌∙◌, true, Option, none, some, ◌%◌, ◌^◌, length,
}
use ftn_tananfs.Outcome.{Outcome, ok, err, panic}
use ftn_tananfs.Outcome.Action.{continue, rescued, pure, gets}
use ftn_tananfs.Structs.{Inode}
use ftn_tananfs.Structs.Attrs.{attrs}
use ftn_tananfs.Bitmap.{get as get_bit}
use ftn_tananfs.Cache.{lookup, lru_max_entries}
use ftn_tananfs.Device.{Device}
use ftn_tananfs.Filesystem.{Filesystem}
use ftn_tananfs.Filesystem.Access.{load_inode, found_inode, cached_inode, flush_inode}
use ftn_tananfs.Filesystem.Lines.{value_of}
use ftn_tananfs.Filesystem.Coherence.{get_line-value}
use ftn_tananfs.Filesystem.InodeCoherence.{Shows, flush_inode-Shows}
use ftn_tananfs.Filesystem.Accounts.Frame.{after}
use ftn_tananfs.Fuse.{Reply}
use ftn_tananfs.Fuse.Attributes.{getattr, setattr, changed}

module _ {W : Type 0} (device : Device W) where
  -- `getattr` of an inode that is in the cache
  shown :
      (fs : Filesystem W) (i : ℕ) (n : Inode)
      → get_bit fs.inodes i ≡ ok true
      → Shows (value_of (lookup i fs.store.cache.inodes)) n
      → (getattr device i fs).0 ≡ ok (Reply.attr (attrs n fs.superblock))
  unfolding getattr load_inode cached_inode found_inode
  shown fs i n used (v, held, same) =
      rw (used, get_line-value (i) (device.now fs.store.world).0 v fs.store.cache.inodes held)
        (ap (λ a. ok (Reply.attr a)) (same fs.superblock))

  rescued-state :
      (r : Outcome Reply) (fs : Filesystem W) → (rescued r (λ e. pure Reply.unanswered) fs).1 ≡ fs
  rescued-state (ok reply) fs = refl
  rescued-state (err e) fs = refl
  rescued-state panic fs = refl

  gets-state :
      (r : Outcome (Unit {0})) (f : Filesystem W → Reply) (fs : Filesystem W)
      → (continue r (λ u. gets f) fs).1 ≡ fs
  gets-state (ok u) f fs = refl
  gets-state (err e) f fs = refl
  gets-state panic f fs = refl

  setattr-state :
      (fs fs' : Filesystem W) (ino : ℕ) (mode uid gid : Option ℕ) (n : Inode)
      → load_inode device ino fs ≡ (ok n, fs')
      → (setattr device ino mode uid gid fs).1
        ≡ after (flush_inode device (changed mode uid gid n) fs')
  unfolding setattr
  setattr-state fs fs' ino mode uid gid n loaded = rw loaded (rescued-state _ _ ∙ gets-state _ _ _)

  -- `getattr` after `setattr` of the same inode answers the attributes with the new mode (cut to 16
  -- bits), user and group where these were given, and the others as they were; whatever the device
  -- answers and however the flush of `setattr` ends: if the inode can be loaded and has its own number,
  -- and the cache is below its limit then.
  pub getattr-setattr :
      (fs fs' : Filesystem W) (ino : ℕ) (mode uid gid : Option ℕ) (n : Inode)
      → load_inode device ino fs ≡ (ok n, fs')
      → n.index ≡ ino
      → get_bit fs'.inodes ino ≡ ok true
      → length fs'.store.cache.inodes + length fs'.store.cache.blocks < lru_max_entries
      → (getattr device ino (setattr device ino mode uid gid fs).1).0
        ≡ ok (
            Reply.attr (record (attrs n fs'.superblock) {
              perm = elim mode [ none ↦ n.mode | some m ↦ m % 2 ^ 16 ];
              uid = elim uid [ none ↦ n.uid | some u ↦ u ];
              gid = elim gid [ none ↦ n.gid | some g ↦ g ];
            }))
  unfolding changed attrs
  getattr-setattr fs fs' ino mode uid gid n loaded own used small =
      let n' = changed mode uid gid n in
      let (shows, superblock, inodes) = flush_inode-Shows device fs' n' small in
      let fs'' = after (flush_inode device n' fs') in
      let shows' : Shows (value_of (lookup ino fs''.store.cache.inodes)) n' = rw (sym own) shows in
      ap (λ t. (getattr device ino t).0) (setattr-state fs fs' ino mode uid gid n loaded)
      ∙ shown fs'' ino n' (ap (λ b. get_bit b ino) inodes ∙ used) shows'
      ∙ ap (λ s. ok (Reply.attr (attrs n' s))) superblock
