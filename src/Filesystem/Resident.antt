-- ===== src/Filesystem/Resident.antt =====
-- Loading what is in the cache does not ask the device, and keeps the cached values.
use ftn_tananfs.Base.{
  ℕ, ◌≡◌, refl, ◌∙◌, ◌==◌, ==→eq, Bool-cases, true, false, none, some, Option-cases, inl, inr,
}
use ftn_tananfs.Outcome.{ok}
use ftn_tananfs.Structs.{Inode, Block}
use ftn_tananfs.Bitmap.{get as get_bit}
use ftn_tananfs.Cache.{Map, CacheLine, lookup, insert, get_line}
use ftn_tananfs.Cache.Lines.{lookup-insert}
use ftn_tananfs.Device.{Device}
use ftn_tananfs.Filesystem.{Filesystem}
use ftn_tananfs.Filesystem.Access.{
  load_inode, found_inode, cached_inode, load_block, stored_block, found_block, cached_block,
}
use ftn_tananfs.Filesystem.Accounts.Frame.{Kept}
use ftn_tananfs.Filesystem.Lines.{value_of}

some-injective : {A : Type 0} {a b : A} → some a ≡ some b → a ≡ b
some-injective h = cc

module _ {T : Type 0} where
  insert-values :
      (i now : ℕ) (line : CacheLine T) (m : Map (CacheLine T))
      → lookup i m ≡ some line
      → (j : ℕ)
      → value_of (lookup j (insert i (record line { atime = now }) m)) ≡ value_of (lookup j m)
  insert-values i now line m present j =
      rw (lookup-insert i j (record line { atime = now }) m) (elim (Bool-cases (j == i)) [
        | inl same ↦ rw (same, ==→eq j i same, present) refl
        | inr other ↦ rw other refl
      ])

  get_line-held :
      (i now : ℕ) (v : T) (m : Map (CacheLine T))
      → value_of (lookup i m) ≡ some v
      → (m' : Map (CacheLine T)) × (get_line i now m ≡ (some v, m'))
        × ((j : ℕ) → value_of (lookup j m') ≡ value_of (lookup j m))
  unfolding get_line
  get_line-held i now v m held = elim (Option-cases (lookup i m)) [
    | inl absent ↦ let h : none ≡ some v = rw absent at held in cc
    | inr (line, present) ↦
        let h : some line.value ≡ some v = rw present at held in
        (
          insert i (record line { atime = now }) m,
          rw (get_line, present, some-injective h) refl,
          insert-values i now line m present,
        )
  ]

module _ {W : Type 0} where
  -- The inode is in use and in the cache.
  pub record IsResident (n : Inode) (fs : Filesystem W) : Type 0 where
    pub used : get_bit fs.inodes n.index ≡ ok true
    pub held : value_of (lookup n.index fs.store.cache.inodes) ≡ some n

  -- The block is in use and in the cache.
  pub record IsCached (b : Block) (fs : Filesystem W) : Type 0 where
    pub used : get_bit fs.blocks b.index ≡ ok true
    pub held : value_of (lookup b.index fs.store.cache.blocks) ≡ some b

module _ {W : Type 0} where
  -- Nothing is changed but the blocks in the cache and the state of the device.
  pub record IsFramed (fs fs' : Filesystem W) : Type 0 where
    pub kept : Kept fs fs'
    pub last_flush : fs'.store.last_flush ≡ fs.store.last_flush
    pub inode_lines : fs'.store.cache.inodes ≡ fs.store.cache.inodes

  -- And the cached blocks stay as they are.
  pub record Stays (fs fs' : Filesystem W) : Type 0 where
    pub cached : (c : Block) → IsCached c fs → IsCached c fs'
    pub framed : IsFramed fs fs'

  pub IsFramed-trans : {f g h : Filesystem W} → IsFramed f g → IsFramed g h → IsFramed f h
  IsFramed-trans a b = record {
    kept = record {
      superblock = b.kept.superblock ∙ a.kept.superblock;
      inodes = b.kept.inodes ∙ a.kept.inodes;
      blocks = b.kept.blocks ∙ a.kept.blocks;
    };
    last_flush = b.last_flush ∙ a.last_flush;
    inode_lines = b.inode_lines ∙ a.inode_lines;
  }

  pub Stays-refl : {f : Filesystem W} → Stays f f
  Stays-refl = record {
    cached = λ c r. r;
    framed = record {
      kept = record { superblock = refl; inodes = refl; blocks = refl };
      last_flush = refl;
      inode_lines = refl;
    };
  }

  pub Stays-trans : {f g h : Filesystem W} → Stays f g → Stays g h → Stays f h
  Stays-trans a b = record {
    cached = λ c r. b.cached c (a.cached c r);
    framed = IsFramed-trans a.framed b.framed;
  }

module _ {W : Type 0} (device : Device W) where
  -- An inode that is in the cache is loaded, and stays there, as every block does.
  pub load-IsResident :
      (n : Inode) (fs : Filesystem W)
      → IsResident n fs
      → (fs' : Filesystem W) × (load_inode device n.index fs ≡ (ok n, fs'))
        × IsResident n fs'
        × ((c : Block) → IsCached c fs → IsCached c fs')
        × (fs'.superblock ≡ fs.superblock)
        × (fs'.store.last_flush ≡ fs.store.last_flush)
  unfolding load_inode cached_inode found_inode
  load-IsResident n fs r =
      let (now, w) = device.now fs.store.world in
      let (m', e, same) = get_line-held n.index now n fs.store.cache.inodes r.held in
      (
        record fs {
          store = record fs.store { world = w; cache = record fs.store.cache { inodes = m' } };
        },
        rw (r.used, e) refl,
        record { used = r.used; held = same n.index ∙ r.held },
        λ c h. record { used = h.used; held = h.held },
        refl,
        refl,
      )

  -- A block that is in the cache is loaded, and every block that is in the cache stays there.
  pub load-IsCached :
      (b : Block) (fs : Filesystem W)
      → IsCached b fs
      → (fs' : Filesystem W) × (load_block device b.index false fs ≡ (ok b, fs')) × Stays fs fs'
  unfolding load_block stored_block cached_block found_block
  load-IsCached b fs r =
      let (now, w) = device.now fs.store.world in
      let (m', e, same) = get_line-held b.index now b fs.store.cache.blocks r.held in
      (
        record fs {
          store = record fs.store { world = w; cache = record fs.store.cache { blocks = m' } };
        },
        rw (r.used, e) refl,
        record {
          cached = λ c h. record { used = h.used; held = same c.index ∙ h.held };
          framed = record {
            kept = record { superblock = refl; inodes = refl; blocks = refl };
            last_flush = refl;
            inode_lines = refl;
          };
        },
      )
