-- ===== src/RawFile/Extend.antt =====
-- `extend` and `with_capacity` of a raw file.
use ftn_tananfs.Base.{ℕ, zero, suc, ltb, leb, ◌==◌, if◌then◌else◌, false}
use ftn_tananfs.Error.{Error}
use ftn_tananfs.Outcome.{assert, ◌+u◌, ◌-u◌, ◌*u◌}
use ftn_tananfs.Outcome.Action.{Action, pure, lift, gets, gets_ok, modify, raise_if, ◌>>=◌, ◌>>◌}
use ftn_tananfs.Structs.{Block, null_block}
use ftn_tananfs.Block.{get_next_block, empty_block_data, bytes_per_block}
use ftn_tananfs.Cursor.{set as set_cursor, position}
use ftn_tananfs.Device.{Device}
use ftn_tananfs.Filesystem.{Filesystem}
use ftn_tananfs.Filesystem.Using.{on_object, on_fs, with_object}
use ftn_tananfs.Filesystem.Access.{load_block, flush_block}
use ftn_tananfs.RawFile.{RawByteFile, Opened, new, on_cursor, initialize, append_block}

module _ {W : Type 0} (device : Device W) where
  -- The branch of `extend` where the new capacity fits into the blocks that are there
  unfoldable pub extend_within : ℕ → ℕ → ℕ → Block → Action (Opened W) (Unit {0})
  extend_within capacity delta per_block last = do
    next ← lift (get_next_block last)
    lift (assert (next == null_block))
    lift (assert (leb delta per_block))
    start ← gets_ok (λ o. o.fs.superblock.block_size -u delta)
    (block, written) ← lift (empty_block_data last start)
    modify (λ o. record o { object = record o.object { size = capacity } })
    on_fs (flush_block device block)

  -- The loop of `extend`, with fuel for so many blocks. Without fuel it panics, which the loop of
  -- the source does not; a block of no data bytes, where the fuel is short, is none of `new`.
  unfoldable pub extend_rounds : ℕ → ℕ → ℕ → ℕ → Action (Opened W) (Unit {0})
  extend_rounds zero total delta per_block = lift (assert (leb delta total))
  extend_rounds (suc fuel) total delta per_block = if leb delta total then pure tt else (do
    append_block device
    allocated ← lift (total +u per_block)
    extend_rounds fuel allocated delta per_block)

  -- The branch of `extend` where blocks are appended
  unfoldable pub extend_beyond : ℕ → ℕ → ℕ → Block → Action (Opened W) (Unit {0})
  extend_beyond capacity delta per_block last = do
    previous ← gets_ok (λ o. position o.object.cursor)
    size ← gets (λ o. o.object.size)
    on_object (on_cursor (set_cursor size))
    byte ← gets (λ o. o.object.cursor.current_byte)
    (block, written) ← lift (empty_block_data last byte)
    on_fs (flush_block device block)
    extend_rounds delta written delta per_block
    modify (λ o. record o { object = record o.object { size = capacity } })
    on_object (on_cursor (set_cursor previous))
    pure tt

  unfoldable pub extend : ℕ → Action (Opened W) (Unit {0})
  extend capacity = do
    old_size ← gets (λ o. o.object.size)
    raise_if (ltb capacity old_size) Error.insufficient_bytes
    first ← gets (λ o. o.object.first_block)
    (if first == null_block then initialize device else pure tt)
    size ← gets (λ o. o.object.size)
    delta ← lift (capacity -u size)
    per_block ← gets_ok (λ o. bytes_per_block o.fs.superblock.block_size)
    index ← gets (λ o. o.object.last_block)
    last ← on_fs (load_block device index false)
    limit ← gets_ok (λ o. o.object.block_count *u per_block)
    if leb capacity limit
        then extend_within capacity delta per_block last
        else extend_beyond capacity delta per_block last

  -- `with_capacity`: the file that is made
  unfoldable pub with_capacity : ℕ → Action (Filesystem W) RawByteFile
  with_capacity capacity = do
    block_size ← gets (λ fs. fs.superblock.block_size)
    with_object (new block_size) (do
      extend capacity
      here ← gets_ok (λ o. position o.object.cursor)
      lift (assert (here == 0))
      gets (λ o. o.object))
