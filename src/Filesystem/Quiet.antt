-- ===== src/Filesystem/Quiet.antt =====
-- The cache while no flush is due.
use ftn_tananfs.Base.{
  ℕ, ◌-◌, ◌<◌, ◌≡◌, ◌≢◌, refl, ◌∙◌, lt→ltb, true, none, some, ne→==-false, eq→==, if◌then◌else◌,
  Option-cases, Bool-cases, inl, inr,
}
use ftn_tananfs.Outcome.{ok}
use ftn_tananfs.Structs.{Inode, Block}
use ftn_tananfs.Bitmap.{get as get_bit}
use ftn_tananfs.Cache.{Map, CacheLine, lookup, set_line, update, block_eq, inode_eq}
use ftn_tananfs.Cache.Lines.{lookup-set_line}
use ftn_tananfs.Device.{Device}
use ftn_tananfs.Filesystem.{Filesystem, dirty_page_max}
use ftn_tananfs.Filesystem.Flushing.{flush}
use ftn_tananfs.Filesystem.Access.{cache_block, flush_block, cache_inode, flush_inode}
use ftn_tananfs.Filesystem.Lines.{value_of}
use ftn_tananfs.Filesystem.Coherence.{set_line-value}
use ftn_tananfs.Filesystem.Resident.{IsCached, IsResident, IsFramed}
use ftn_tananfs.Filesystem.Accounts.Frame.{Kept}

-- A value that is in the cache stays where it passes for equal to the new one.
set_line-replaced :
    (old n : Inode) (now : ℕ) (m : Map (CacheLine Inode))
    → value_of (lookup n.index m) ≡ some old
    → value_of (lookup n.index (set_line inode_eq n.index n now m))
      ≡ some (if inode_eq old n then old else n)
unfolding update
set_line-replaced old n now m held = elim (Option-cases (lookup n.index m)) [
  | inl absent ↦ let e : none ≡ some old = rw absent at held in cc
  | inr (line, present) ↦
      let e : some line.value ≡ some old = rw present at held in
      let same : line.value ≡ old = cc in
      rw (lookup-set_line inode_eq n.index n.index n now m, eq→== n.index n.index refl, present)
        (elim (Bool-cases (inode_eq old n)) [
          | inl alike ↦ rw (same, alike) refl
          | inr unlike ↦ rw (same, unlike) refl
        ])
]

module _ {W : Type 0} (device : Device W) where
  -- The last flush was less than its period ago, whatever the clock reads.
  pub record IsQuiet (fs : Filesystem W) : Type 0 where
    pub last : ℕ
    pub stamped : fs.store.last_flush ≡ some last
    pub recent : (w : W) → (device.now w).0 - last < dirty_page_max

  pub IsQuiet-framed : (fs fs' : Filesystem W) → IsFramed fs fs' → IsQuiet fs → IsQuiet fs'
  IsQuiet-framed fs fs' framed q = record {
    last = q.last;
    stamped = framed.last_flush ∙ q.stamped;
    recent = q.recent;
  }

  pub flush-quiet :
      (fs : Filesystem W)
      → IsQuiet fs
      → flush device fs
        ≡ (ok tt, record fs { store = record fs.store { world = (device.now fs.store.world).1 } })
  unfolding flush
  flush-quiet fs q = rw (q.stamped, lt→ltb _ _ (q.recent fs.store.world)) refl

  -- A block that is in use is flushed to the cache, and the other blocks in the cache stay.
  pub flush_block-quiet :
      (b : Block) (fs : Filesystem W)
      → IsQuiet fs
      → get_bit fs.blocks b.index ≡ ok true
      → (fs' : Filesystem W) × (flush_block device b fs ≡ (ok tt, fs'))
        × IsCached b fs'
        × ((c : Block) → c.index ≢ b.index → IsCached c fs → IsCached c fs')
        × IsFramed fs fs'
  unfolding flush_block cache_block
  flush_block-quiet b fs q used =
      let (now, w) = device.now fs.store.world in
      let lines = set_line block_eq b.index b now fs.store.cache.blocks in
      let mid : Filesystem W = record fs {
        store = record fs.store { world = w; cache = record fs.store.cache { blocks = lines } };
      } in
      (
        record mid { store = record mid.store { world = (device.now w).1 } },
        flush-quiet mid (record { last = q.last; stamped = q.stamped; recent = q.recent }),
        record { used = used; held = set_line-value b now fs.store.cache.blocks },
        λ c other r. record {
          used = r.used;
          held =
              rw
                (
                  lookup-set_line block_eq b.index c.index b now fs.store.cache.blocks,
                  ne→==-false c.index b.index other,
                )
                r.held;
        },
        record {
          kept = record { superblock = refl; inodes = refl; blocks = refl };
          last_flush = refl;
          inode_lines = refl;
        },
      )

  -- An inode that is flushed to the cache replaces the one there, if that does not pass for equal.
  pub flush_inode-quiet :
      (old n : Inode) (fs : Filesystem W)
      → IsQuiet fs
      → IsResident old fs
      → n.index ≡ old.index
      → (fs' : Filesystem W) × (flush_inode device n fs ≡ (ok tt, fs'))
        × (value_of (lookup n.index fs'.store.cache.inodes)
            ≡ some (if inode_eq old n then old else n))
        × ((c : Block) → IsCached c fs → IsCached c fs')
        × Kept fs fs'
  unfolding flush_inode cache_inode
  flush_inode-quiet old n fs q r own =
      let (now, w) = device.now fs.store.world in
      let lines = set_line inode_eq n.index n now fs.store.cache.inodes in
      let mid : Filesystem W = record fs {
        store = record fs.store { world = w; cache = record fs.store.cache { inodes = lines } };
      } in
      (
        record mid { store = record mid.store { world = (device.now w).1 } },
        flush-quiet mid (record { last = q.last; stamped = q.stamped; recent = q.recent }),
        set_line-replaced old n now fs.store.cache.inodes (rw own r.held),
        λ c h. record { used = h.used; held = h.held },
        record { superblock = refl; inodes = refl; blocks = refl },
      )
