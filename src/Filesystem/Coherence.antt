-- ===== src/Filesystem/Coherence.antt =====
-- A block that was flushed is the block that is loaded next, whatever the device does meanwhile.
use ftn_tananfs.Base.{
  ℕ, suc, ◌+◌, ◌≤◌, ◌<◌, ◌≡◌, refl, ap, ◌∙◌, arith, ◌==◌, Bool, true, false, Bool-cases, Option,
  none, some, [], ◌∷◌, inl, inr, length, eq→==, ==→eq, Option-cases, list_eq, list_eq_iff, ◌&&◌,
}
use ftn_tananfs.Outcome.{ok}
use ftn_tananfs.Structs.{Block}
use ftn_tananfs.Bitmap.{get as get_bit}
use ftn_tananfs.Cache.{
  Map, CacheLine, lookup, insert, set_line, get_line, update, new_line, block_eq, lru_max_entries,
}
use ftn_tananfs.Cache.Lines.{lookup-set_line}
use ftn_tananfs.Device.{Device}
use ftn_tananfs.Filesystem.{Filesystem}
use ftn_tananfs.Filesystem.Flushing.{flush}
use ftn_tananfs.Filesystem.Access.{
  cache_block, cached_block, load_block, stored_block, found_block, flush_block,
}
use ftn_tananfs.Filesystem.Lines.{value_of}
use ftn_tananfs.Filesystem.Accounts.Frame.{after, flush-Kept}
use ftn_tananfs.Filesystem.Pruned.{IsSmall, flush-CacheKept}

pub both : (p q : Bool) → (p && q) ≡ true → (p ≡ true) × (q ≡ true)
both p q h = ground arith

block_eq→eq : (a b : Block) → block_eq a b ≡ true → a ≡ b
unfolding block_eq
block_eq→eq a b h =
    let (indices, bytes) = both (a.index == b.index) (list_eq a.bytes b.bytes) h in
    λ i. record {
      index = ==→eq a.index b.index indices i;
      bytes = (list_eq_iff a.bytes b.bytes).0 bytes i;
    }

-- After a block is put into the cache, the line of its index holds it.
pub set_line-value :
    (b : Block) (now : ℕ) (m : Map (CacheLine Block))
    → value_of (lookup b.index (set_line block_eq b.index b now m)) ≡ some b
unfolding new_line update
set_line-value b now m =
    rw (lookup-set_line block_eq b.index b.index b now m, eq→== b.index b.index refl)
      (held (lookup b.index m))
  where
    held :
        (o : Option (CacheLine Block))
        → value_of
            (some (elim o [ none ↦ new_line b now | some line ↦ update block_eq b now line ]))
          ≡ some b
    held none = refl
    held (some line) = elim (Bool-cases (block_eq line.value b)) [
      | inl same ↦ rw same (ap some (block_eq→eq line.value b same))
      | inr other ↦ rw other
    ]

pub length-insert_le :
    {V : Type 0} (k : ℕ) (v : V) (m : Map V) → length (insert k v m) ≤ suc (length m)
unfolding insert
length-insert_le k v [] = omega arith
length-insert_le k v ((j, u) ∷ m) = ground (arith, length-insert_le k v m)

length-set_line_le :
    (b : Block) (now : ℕ) (m : Map (CacheLine Block))
    → length (set_line block_eq b.index b now m) ≤ suc (length m)
unfolding set_line
length-set_line_le b now m = held (lookup b.index m)
  where
    held :
        (o : Option (CacheLine Block))
        → length (elim o [
          | none ↦ insert b.index (new_line b now) m
          | some line ↦ insert b.index (update block_eq b now line) m
        ])
          ≤ suc (length m)
    held none = length-insert_le b.index (new_line b now) m
    held (some line) = length-insert_le b.index (update block_eq b now line) m

pub get_line-value :
    {T : Type 0} (i now : ℕ) (b : T) (m : Map (CacheLine T))
    → value_of (lookup i m) ≡ some b
    → (get_line i now m).0 ≡ some b
unfolding get_line
get_line-value i now b m held = elim (Option-cases (lookup i m)) [
  | inl absent ↦ let h : none ≡ some b = simp absent at held in cc
  | inr (line, present) ↦
      let h : some line.value ≡ some b = simp present at held in rw (get_line, present) h
]

module _ {W : Type 0} (device : Device W) where
  -- A cached block is loaded without asking the device.
  loaded :
      (fs : Filesystem W) (b : Block)
      → get_bit fs.blocks b.index ≡ ok true
      → value_of (lookup b.index fs.store.cache.blocks) ≡ some b
      → (load_block device b.index false fs).0 ≡ ok b
  unfolding load_block stored_block found_block cached_block
  loaded fs b used held = rw (
    load_block,
    used,
    get_line-value b.index (device.now fs.store.world).0 b fs.store.cache.blocks held,
  )

  -- `flush_block` of an acquired block, then `load_block` of its index, gives that block back: with
  -- any device and however the flush ends, if the cache holds less than its limit.
  pub load_block-flush_block :
      (fs : Filesystem W) (b : Block)
      → get_bit fs.blocks b.index ≡ ok true
      → length fs.store.cache.inodes + length fs.store.cache.blocks < lru_max_entries
      → (load_block device b.index false (after (flush_block device b fs))).0 ≡ ok b
  unfolding flush_block cache_block
  load_block-flush_block fs b used small =
      let (now, w) = device.now fs.store.world in
      let fs' : Filesystem W = record fs {
        store = record fs.store {
          world = w;
          cache = record fs.store.cache {
            blocks = set_line block_eq b.index b now fs.store.cache.blocks;
          };
        };
      } in
      let small' : IsSmall fs'.store =
        omega (arith, length-set_line_le b now fs.store.cache.blocks, small) in
      let kept = flush-Kept device fs' in
      loaded (after (flush device fs')) b (rw (kept.blocks) used) (
        (flush-CacheKept device fs').values small' b.index
        ∙ set_line-value b now fs.store.cache.blocks)
