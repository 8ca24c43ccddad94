-- ===== src/Filesystem.antt =====
-- src/filesystem/mod.rs: the filesystem in memory, with its device. Everything a flush can change
-- is in the field `store`.
pub mod Using
pub mod Flushing
pub mod Allocator
pub mod Access
pub mod Mount
pub mod Lines
pub mod Pruned
pub mod Coherence
pub mod InodeCoherence
pub mod Resident
pub mod Accounts
pub mod Invariant
pub mod Quiet
pub mod Persistence
use ftn_tananfs.Base.{
  ℕ, zero, suc, ◌+◌, ◌-◌, ◌^◌, ltb, leb, ◌==◌, if◌then◌else◌, Bool, true, false, not, ◌&&◌, Option,
  none, some, List, [], ◌∷◌, replicate,
}
use ftn_tananfs.Error.{Error}
use ftn_tananfs.Outcome.{Outcome, ok, err, panic, ◌+u◌, ◌-u◌}
use ftn_tananfs.Outcome.Action.{
  Action, pure, raise, lift, gets, gets_ok, modify, raise_if, ◌>>=◌, ◌>>◌,
}
use ftn_tananfs.Structs.{Superblock, Inode, Block, Bitmap, magic_signature}
use ftn_tananfs.Structs.Size.{next_power_of_two}
use ftn_tananfs.Superblock.{new as new_superblock}
use ftn_tananfs.Bitmap.{new_inodes, new_blocks, next_free, set as set_bit, get as get_bit}
use ftn_tananfs.Cache.{
  Map, CacheLine, Cache, LruLine, lookup, empty, inode_eq, block_eq, get_line, set_line, prune,
}
use ftn_tananfs.Word.Bytes.{from_le}
use ftn_tananfs.Device.{Device}
use ftn_tananfs.Device.Structures as Structures

-- In milliseconds
abbrev pub dirty_page_max : ℕ
dirty_page_max = 1000

abbrev pub root_inode : ℕ
root_inode = 1

pub record Store (W : Type 0) : Type 0 where
  pub world : W
  pub cache : Cache
  pub last_flush : Option ℕ

pub record Filesystem (W : Type 0) : Type 0 where
  pub superblock : Superblock
  pub inodes : Bitmap
  pub blocks : Bitmap
  pub store : Store W

-- A call on a part of the state
module _ {W : Type 0} {A : Type 0} where
  abbrev pub on_world : Action W A → Action (Store W) A
  on_world m s = let (r, world) = m s.world in (r, record s { world = world })

  abbrev pub on_store : Action (Store W) A → Action (Filesystem W) A
  on_store m fs = let (r, store) = m fs.store in (r, record fs { store = store })

  abbrev pub on_inodes : Action Bitmap A → Action (Filesystem W) A
  on_inodes m fs = let (r, inodes) = m fs.inodes in (r, record fs { inodes = inodes })

  abbrev pub on_blocks : Action Bitmap A → Action (Filesystem W) A
  on_blocks m fs = let (r, blocks) = m fs.blocks in (r, record fs { blocks = blocks })

  abbrev pub on_inode_lines : Action (Map (CacheLine Inode) × W) A → Action (Store W) A
  on_inode_lines m s =
      let (r, (lines, world)) = m (s.cache.inodes, s.world) in
      (r, record s { world = world; cache = record s.cache { inodes = lines } })

  abbrev pub on_block_lines : Action (Map (CacheLine Block) × W) A → Action (Store W) A
  on_block_lines m s =
      let (r, (lines, world)) = m (s.cache.blocks, s.world) in
      (r, record s { world = world; cache = record s.cache { blocks = lines } })
