-- ===== src/RawFile/Shrink.antt =====
-- `shrink` of a raw file.
use ftn_tananfs.Base.{ℕ, zero, suc, ltb, ◌==◌, if◌then◌else◌, not, false}
use ftn_tananfs.Error.{Error}
use ftn_tananfs.Outcome.{assert, ◌+u◌, ◌-u◌}
use ftn_tananfs.Outcome.Action.{Action, pure, lift, gets, gets_ok, modify, raise_if, ◌>>=◌, ◌>>◌}
use ftn_tananfs.Structs.{Block, null_block}
use ftn_tananfs.Block.{get_next_block}
use ftn_tananfs.Cursor.{set as set_cursor, reset, position}
use ftn_tananfs.Device.{Device}
use ftn_tananfs.Filesystem.Allocator.{release_block}
use ftn_tananfs.Filesystem.Access.{load_block}
use ftn_tananfs.Filesystem.Using.{on_object, on_fs}
use ftn_tananfs.RawFile.{Opened, on_cursor, get_nth_block}

module _ {W : Type 0} (device : Device W) where
  unfoldable pub lose_block : Action (Opened W) (Unit {0})
  lose_block = do
    count ← gets_ok (λ o. o.object.block_count -u 1)
    modify (λ o. record o { object = record o.object { block_count = count } })

  -- The loop of `shrink`: so many blocks are released, from the one with the given index on.
  unfoldable pub release_chain : ℕ → ℕ → Action (Opened W) (Unit {0})
  unfolding lose_block
  release_chain zero index = pure tt
  release_chain (suc n) index = do
    lift (assert (not (index == null_block)))
    block ← on_fs (load_block device index false)
    on_fs (release_block device block.index)
    lose_block
    next ← lift (get_next_block block)
    release_chain n next

  -- The end of `shrink` to a capacity above 0, with the block that is now the last
  unfoldable pub keep_until : ℕ → ℕ → Block → Action (Opened W) (Unit {0})
  keep_until capacity previous last = do
    modify (λ o. record o { object = record o.object { size = capacity; last_block = last.index } })
    if ltb capacity previous
        then on_object (on_cursor (modify reset))
        else on_object (on_cursor (set_cursor previous)) >> pure tt

  -- The end of `shrink` to 0
  unfoldable pub clear : Block → Action (Opened W) (Unit {0})
  unfolding lose_block
  clear last = do
    first ← gets (λ o. o.object.first_block)
    lift (assert (first == last.index))
    on_fs (release_block device first)
    lose_block
    left ← gets (λ o. o.object.block_count)
    lift (assert (left == 0))
    modify (λ o. record o {
      object = record o.object {
        size = 0;
        first_block = null_block;
        last_block = null_block;
        cursor = reset o.object.cursor;
      };
    })

  unfoldable pub shrink_to : ℕ → Action (Opened W) (Unit {0})
  shrink_to capacity = do
    previous ← gets_ok (λ o. position o.object.cursor)
    on_object (on_cursor (set_cursor capacity))
    index ← gets (λ o. o.object.cursor.current_block)
    last ← get_nth_block device index
    kept ← lift (index +u 1)
    surplus ← gets_ok (λ o. o.object.block_count -u kept)
    (if ltb 0 surplus then lift (get_next_block last) >>= release_chain surplus else pure tt)
    if ltb 0 capacity then keep_until capacity previous last else clear last

  unfoldable pub shrink : ℕ → Action (Opened W) (Unit {0})
  shrink capacity = do
    size ← gets (λ o. o.object.size)
    if capacity == size
        then pure tt
        else raise_if (ltb size capacity) Error.out_of_bounds >> shrink_to capacity
