-- ===== src/Cache.antt =====
-- src/filesystem/cache.rs: the inodes and blocks that are kept in memory, with the time of their
-- last use and whether they differ from the device.
pub mod Lines
use ftn_tananfs.Base.{
  ℕ, ◌+◌, ◌*◌, ◌≤◌, ltb, leb, ◌==◌, if◌then◌else◌, Bool, true, false, not, ◌&&◌, Option, none, some,
  List, [], ◌∷◌, ◌++◌, length, drop, list_eq,
}
use ftn_tananfs.Structs.{Inode, Block, Metadata}

-- `BTreeMap<u64, V>`, in the order of its keys
abbrev pub Map : Type 0 → Type 0
Map V = List (ℕ × V)

module _ {V : Type 0} where
  abbrev pub lookup : ℕ → Map V → Option V
  lookup k [] = none
  lookup k ((j, v) ∷ m) = if k == j then some v else lookup k m

  unfoldable pub insert : ℕ → V → Map V → Map V
  insert k v [] = (k, v) ∷ []
  insert k v ((j, u) ∷ m) =
      let rest = insert k v m in
      if k == j then (k, v) ∷ m else if ltb k j then (k, v) ∷ (j, u) ∷ m else (j, u) ∷ rest

  unfoldable pub remove : ℕ → Map V → Map V
  remove k [] = []
  remove k ((j, u) ∷ m) = let rest = remove k m in if k == j then m else (j, u) ∷ rest

-- `atime` is an `Instant`, in milliseconds.
pub record CacheLine (T : Type 0) : Type 0 where
  pub value : T
  pub modified : Bool
  pub atime : ℕ

pub data LruLine : Type 0 where
  inode : ℕ → ℕ → LruLine
  block : ℕ → ℕ → LruLine

pub record Cache : Type 0 where
  pub inodes : Map (CacheLine Inode)
  pub blocks : Map (CacheLine Block)

abbrev pub lru_max_entries : ℕ
lru_max_entries = 131072

-- `Cache::default()`
abbrev pub empty : Cache
empty = record { inodes = []; blocks = [] }

metadata_eq : Metadata → Metadata → Bool
metadata_eq a b = a.m0 == b.m0 && a.m1 == b.m1 && a.m2 == b.m2 && a.m3 == b.m3 && a.m4 == b.m4

-- `PartialEq for Inode`: `last_block` is not compared.
unfoldable pub inode_eq : Inode → Inode → Bool
unfolding metadata_eq
inode_eq a b =
    a.index == b.index
    && a.mode == b.mode
    && a.file_type == b.file_type
    && a.size == b.size
    && a.uid == b.uid
    && a.gid == b.gid
    && a.atime == b.atime
    && a.ctime == b.ctime
    && a.mtime == b.mtime
    && a.dtime == b.dtime
    && a.block_count == b.block_count
    && metadata_eq a.metadata b.metadata
    && a.first_block == b.first_block

unfoldable pub block_eq : Block → Block → Bool
block_eq a b = a.index == b.index && list_eq a.bytes b.bytes

module _ {T : Type 0} where
  -- `CacheLine::new`: a new line counts as equal to the device.
  unfoldable pub new_line : T → ℕ → CacheLine T
  new_line value now = record { value = value; modified = false; atime = now }

  -- `CacheLine::update`
  unfoldable pub update : (T → T → Bool) → T → ℕ → CacheLine T → CacheLine T
  update eq value now line =
      if eq line.value value then line else record { value = value; modified = true; atime = now }

  -- `get_inode` and `get_block`: the copy that is handed out, and the map with the line's time
  -- set (twice in the source, by the method and by `CacheLine::get`; `now` is the later reading).
  unfoldable pub get_line : ℕ → ℕ → Map (CacheLine T) → Option T × Map (CacheLine T)
  get_line index now m = elim (lookup index m) [
    | none ↦ (none, m)
    | some line ↦ (some line.value, insert index (record line { atime = now }) m)
  ]

  -- `set_inode` and `set_block`, for a value whose field `index` is `index`
  unfoldable pub set_line : (T → T → Bool) → ℕ → T → ℕ → Map (CacheLine T) → Map (CacheLine T)
  set_line eq index value now m = elim (lookup index m) [
    | none ↦ insert index (new_line value now) m
    | some line ↦ insert index (update eq value now line) m
  ]

  -- The unmodified lines, as `lru_line` gives them
  unfoldable pub idle_lines : (ℕ → ℕ → LruLine) → (T → ℕ) → Map (CacheLine T) → List LruLine
  idle_lines lru_line index_of [] = []
  idle_lines lru_line index_of ((k, line) ∷ m) =
      let rest = idle_lines lru_line index_of m in
      if line.modified then rest else lru_line line.atime (index_of line.value) ∷ rest

-- The closure of `prune`
unfoldable pub forget : LruLine → Cache → Cache
forget (LruLine.inode t index) c = record c { inodes = remove index c.inodes }
forget (LruLine.block t index) c = record c { blocks = remove index c.blocks }

unfoldable pub forget_all : List LruLine → Cache → Cache
forget_all [] c = c
forget_all (l ∷ ls) c = forget_all ls (forget l c)

unfoldable pub candidates : Cache → List LruLine
candidates c =
    idle_lines LruLine.inode (λ (i : Inode). i.index) c.inodes
    ++ idle_lines LruLine.block (λ (b : Block). b.index) c.blocks

-- `prune`, given the order that `BinaryHeap::into_sorted_vec` puts the candidates in
unfoldable pub prune : (List LruLine → List LruLine) → Cache → Cache
prune sorted c =
    if leb (length c.inodes + length c.blocks) lru_max_entries
    then c
    else forget_all (drop lru_max_entries (sorted (candidates c))) c
