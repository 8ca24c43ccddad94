-- ===== src/RawFile.antt =====
-- src/filetypes/raw_file.rs: a file as a chain of blocks, with a cursor in it. The state of a method
-- is the file and the filesystem that it shares.
pub mod Seek
pub mod Shrink
pub mod Read
pub mod Write
pub mod Extend
pub mod Remove
pub mod Invariant
pub mod Resizing
pub mod Fuel
pub mod ReadLength
pub mod Linked
pub mod Chain
pub mod Nth
pub mod Reading
pub mod Distinct
pub mod Rewriting
pub mod Rewritten
pub mod WriteRounds
pub mod Writing
use ftn_tananfs.Base.{ℕ, zero, suc, ◌+◌, ltb, leb, ◌==◌, if◌then◌else◌, Bool, true, false}
use ftn_tananfs.Error.{Error}
use ftn_tananfs.Outcome.{Outcome, ok, err, panic, ◌+u◌, ◌-u◌, ◌*u◌}
use ftn_tananfs.Outcome.Action.{
  Action, pure, raise, lift, gets, gets_ok, modify, raise_if, ◌>>=◌, ◌>>◌,
}
use ftn_tananfs.Structs.{Inode, Block, null_block}
use ftn_tananfs.Block.{get_next_block, set_next_block}
use ftn_tananfs.Word.Int.{ℤ, pos, negsuc}
use ftn_tananfs.Cursor.{
  BlockCursor, new as new_cursor, set as set_cursor, advance, regress, reset, position,
}
use ftn_tananfs.Device.{Device}
use ftn_tananfs.Filesystem.{Filesystem}
use ftn_tananfs.Filesystem.Using.{Using, on_fs}
use ftn_tananfs.Filesystem.Allocator.{acquire_block}
use ftn_tananfs.Filesystem.Access.{load_block, flush_block}

pub record RawByteFile : Type 0 where
  pub first_block : ℕ
  pub last_block : ℕ
  pub block_count : ℕ
  pub size : ℕ
  pub cursor : BlockCursor

abbrev pub Opened : Type 0 → Type 0
Opened = Using RawByteFile

-- `std::io::SeekFrom`
pub data SeekFrom : Type 0 where
  start : ℕ → SeekFrom
  end : ℤ → SeekFrom
  current : ℤ → SeekFrom

-- `new`, given the block size of the filesystem
unfoldable pub new : ℕ → RawByteFile
new block_size = record {
  first_block = null_block;
  last_block = null_block;
  block_count = 0;
  size = 0;
  cursor = new_cursor block_size 8 0;
}

-- `load`, given the block size of the filesystem
unfoldable pub load : ℕ → Inode → RawByteFile
load block_size inode = record {
  first_block = inode.first_block;
  last_block = inode.last_block;
  block_count = inode.block_count;
  size = inode.size;
  cursor = new_cursor block_size 8 0;
}

unfoldable pub update_inode : RawByteFile → Inode → Inode
update_inode file inode = record inode {
  first_block = file.first_block;
  last_block = file.last_block;
}

abbrev pub on_cursor : {A : Type 0} → Action BlockCursor A → Action RawByteFile A
on_cursor m file = let (r, cursor) = m file.cursor in (r, record file { cursor = cursor })

-- The branches of `seek` that `End` and `Current` share, on the cursor as it then stands. The cast
-- of its position to `i64` keeps the value: positions are below `2 ^ 63`.
unfoldable pub seek_by : ℤ → Action RawByteFile ℕ
seek_by (pos zero) = pure 0
seek_by (pos (suc n)) = do
  here ← gets_ok (λ file. position file.cursor)
  there ← lift (here +u suc n)
  size ← gets (λ file. file.size)
  raise_if (leb size there) Error.io
  on_cursor (advance (suc n))
seek_by (negsuc n) = do
  here ← gets_ok (λ file. position file.cursor)
  raise_if (ltb here (suc n)) Error.io
  on_cursor (regress (suc n))

-- `Seek for RawByteFile`
unfoldable pub seek : SeekFrom → Action RawByteFile ℕ
seek (SeekFrom.start bytes) = do
  size ← gets (λ file. file.size)
  raise_if (ltb size bytes) Error.io
  on_cursor (set_cursor bytes)
seek (SeekFrom.end bytes) = do
  size ← gets (λ file. file.size)
  on_cursor (set_cursor size)
  seek_by bytes
seek (SeekFrom.current bytes) = seek_by bytes

module _ {W : Type 0} (device : Device W) where
  -- The loop of `get_nth_block`, with so many blocks still to go
  unfoldable pub walk : ℕ → Block → Action (Opened W) Block
  walk zero block = pure block
  walk (suc n) block = do
    next ← lift (get_next_block block)
    raise_if (next == null_block) Error.out_of_bounds
    following ← on_fs (load_block device next false)
    walk n following

  unfoldable pub get_nth_block : ℕ → Action (Opened W) Block
  get_nth_block n = do
    file ← gets (λ o. o.object)
    raise_if (file.first_block == null_block) Error.null_block
    raise_if (leb file.block_count n) Error.out_of_bounds
    after ← lift (n +u 1)
    if after == file.block_count
        then on_fs (load_block device file.last_block false)
        else on_fs (load_block device file.first_block false) >>= walk n

  unfoldable pub initialize : Action (Opened W) (Unit {0})
  initialize = do
    index ← on_fs (acquire_block device)
    empty ← on_fs (load_block device index true)
    block ← lift (set_next_block empty null_block)
    on_fs (flush_block device block)
    modify (λ o. record o {
      object = record o.object {
        first_block = block.index;
        last_block = block.index;
        block_count = 1;
        cursor = reset o.object.cursor;
      };
    })

  unfoldable pub append_block : Action (Opened W) ℕ
  append_block = do
    last ← gets (λ o. o.object.last_block)
    old ← on_fs (load_block device last false)
    next ← on_fs (acquire_block device)
    old' ← lift (set_next_block old next)
    on_fs (flush_block device old')
    empty ← on_fs (load_block device next true)
    block ← lift (set_next_block empty null_block)
    on_fs (flush_block device block)
    modify (λ o. record o { object = record o.object { last_block = next } })
    count ← gets_ok (λ o. o.object.block_count +u 1)
    modify (λ o. record o { object = record o.object { block_count = count } })
    pure next
