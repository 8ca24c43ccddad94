-- ===== src/Filesystem/InodeCoherence.antt =====
-- An inode that was flushed shows the same attributes when it is loaded next.
use ftn_tananfs.Base.{
  ℕ, suc, ◌+◌, ◌≤◌, ◌<◌, ◌≡◌, refl, ◌∙◌, arith, true, Bool-cases, Option, none, some, inl, inr,
  length, eq→==, ==→eq,
}
use ftn_tananfs.Structs.{Superblock, Inode}
use ftn_tananfs.Structs.Attrs.{attrs}
use ftn_tananfs.Cache.{
  Map, CacheLine, lookup, insert, set_line, update, new_line, inode_eq, lru_max_entries,
}
use ftn_tananfs.Cache.Lines.{lookup-set_line}
use ftn_tananfs.Device.{Device}
use ftn_tananfs.Filesystem.{Filesystem}
use ftn_tananfs.Filesystem.Access.{cache_inode, flush_inode}
use ftn_tananfs.Filesystem.Lines.{value_of}
use ftn_tananfs.Filesystem.Coherence.{both, length-insert_le}
use ftn_tananfs.Filesystem.Accounts.Frame.{after, flush-Kept}
use ftn_tananfs.Filesystem.Pruned.{IsSmall, flush-CacheKept}

-- Inodes that the cache takes for equal show the same attributes.
inode_eq→attrs : (a b : Inode) (s : Superblock) → inode_eq a b ≡ true → attrs a s ≡ attrs b s
unfolding inode_eq attrs
inode_eq→attrs a b s h =
    let (h12, first) = both _ _ h in
    let (h11, meta) = both _ _ h12 in
    let (h10, blocks) = both _ _ h11 in
    let (h9, dtime) = both _ _ h10 in
    let (h8, mtime) = both _ _ h9 in
    let (h7, ctime) = both _ _ h8 in
    let (h6, atime) = both _ _ h7 in
    let (h5, gid) = both _ _ h6 in
    let (h4, uid) = both _ _ h5 in
    let (h3, size) = both _ _ h4 in
    let (h2, kind) = both _ _ h3 in
    let (index, mode) = both _ _ h2 in
    λ i. record {
      ino = ==→eq a.index b.index index i;
      size = ==→eq a.size b.size size i;
      blocks = ==→eq a.block_count b.block_count blocks i;
      atime = ==→eq a.atime b.atime atime i;
      mtime = ==→eq a.mtime b.mtime mtime i;
      ctime = ==→eq a.ctime b.ctime ctime i;
      crtime = ==→eq a.ctime b.ctime ctime i;
      kind = ==→eq a.file_type b.file_type kind i;
      perm = ==→eq a.mode b.mode mode i;
      nlink = 0;
      uid = ==→eq a.uid b.uid uid i;
      gid = ==→eq a.gid b.gid gid i;
      rdev = 0;
      blksize = s.block_size;
      flags = 0;
    }

-- What the cache holds of an inode shows the same attributes.
abbrev pub Shows : Option Inode → Inode → Type 0
Shows held n = (v : Inode) × (held ≡ some v) × ((s : Superblock) → attrs v s ≡ attrs n s)

set_line-Shows :
    (n : Inode) (now : ℕ) (m : Map (CacheLine Inode))
    → Shows (value_of (lookup n.index (set_line inode_eq n.index n now m))) n
unfolding new_line update
set_line-Shows n now m =
    rw (lookup-set_line inode_eq n.index n.index n now m, eq→== n.index n.index refl)
      (held (lookup n.index m))
  where
    held :
        (o : Option (CacheLine Inode))
        → Shows
            (value_of
              (some (elim o [ none ↦ new_line n now | some line ↦ update inode_eq n now line ])))
            n
    held none = (n, refl, λ s. refl)
    held (some line) = elim (Bool-cases (inode_eq line.value n)) [
      | inl same ↦ rw same (line.value, refl, λ s. inode_eq→attrs line.value n s same)
      | inr other ↦ rw other (n, refl, λ s. refl)
    ]

length-set_line_le :
    (n : Inode) (now : ℕ) (m : Map (CacheLine Inode))
    → length (set_line inode_eq n.index n now m) ≤ suc (length m)
unfolding set_line
length-set_line_le n now m = held (lookup n.index m)
  where
    held :
        (o : Option (CacheLine Inode))
        → length (elim o [
          | none ↦ insert n.index (new_line n now) m
          | some line ↦ insert n.index (update inode_eq n now line) m
        ])
          ≤ suc (length m)
    held none = length-insert_le n.index (new_line n now) m
    held (some line) = length-insert_le n.index (update inode_eq n now line) m

module _ {W : Type 0} (device : Device W) where
  -- While the cache is below its limit, a flush of an inode leaves one in the cache that shows the
  -- same attributes, and the superblock and the bitmaps as they are, however it ends.
  pub flush_inode-Shows :
      (fs : Filesystem W) (n : Inode)
      → length fs.store.cache.inodes + length fs.store.cache.blocks < lru_max_entries
      → let fs' = after (flush_inode device n fs) in
        Shows (value_of (lookup n.index fs'.store.cache.inodes)) n
        × (fs'.superblock ≡ fs.superblock)
        × (fs'.inodes ≡ fs.inodes)
  unfolding flush_inode cache_inode
  flush_inode-Shows fs n small =
      let (now, w) = device.now fs.store.world in
      let fs' : Filesystem W = record fs {
        store = record fs.store {
          world = w;
          cache = record fs.store.cache {
            inodes = set_line inode_eq n.index n now fs.store.cache.inodes;
          };
        };
      } in
      let small' : IsSmall fs'.store =
        omega (arith, length-set_line_le n now fs.store.cache.inodes, small) in
      let kept = flush-Kept device fs' in
      let (v, held, same) = set_line-Shows n now fs.store.cache.inodes in
      (
        (v, (flush-CacheKept device fs').inode_values small' n.index ∙ held, same),
        kept.superblock,
        kept.inodes,
      )
