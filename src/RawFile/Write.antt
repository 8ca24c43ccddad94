-- ===== src/RawFile/Write.antt =====
-- `write` of a raw file.
use ftn_tananfs.Base.{
  ℕ, zero, suc, ◌+◌, ltb, ◌==◌, if◌then◌else◌, Bool, true, false, ◌&&◌, List, [], ◌∷◌, length, drop,
}
use ftn_tananfs.Outcome as Checked
use ftn_tananfs.Outcome.{Outcome, ok, err, panic, assert, ◌+u◌, ◌-u◌, ◌*u◌, ◌%u◌}
use ftn_tananfs.Outcome.Action.{Action, pure, lift, gets, gets_ok, modify, ◌>>=◌, ◌>>◌}
use ftn_tananfs.Structs.{Block, null_block}
use ftn_tananfs.Block.{get_next_block, write_to_block}
use ftn_tananfs.Cursor.{advance, position, padded_block}
use ftn_tananfs.Device.{Device}
use ftn_tananfs.Filesystem.Using.{on_object, on_fs}
use ftn_tananfs.Filesystem.Access.{load_block, flush_block}
use ftn_tananfs.RawFile.{RawByteFile, Opened, on_cursor, get_nth_block, initialize, append_block}

-- Whether the file ends at the end of its last block, with the cursor behind it
unfoldable pub ends_full : RawByteFile → Outcome Bool
ends_full file =
    if file.size == 0
    then ok false
    else Checked.◌>>=◌ (position file.cursor) λ here.
      Checked.◌>>=◌ (padded_block file.cursor)
        λ padded. Checked.◌>>=◌ (here %u padded) λ rest. ok (rest == 0 && here == file.size)

module _ {W : Type 0} (device : Device W) where
  -- The block behind `block`, which is appended if there is none
  unfoldable pub next_or_append : Block → Action (Opened W) ℕ
  next_or_append block = do
    next ← lift (get_next_block block)
    if next == null_block then append_block device else pure next

  unfoldable pub append_if : Bool → Action (Opened W) (Unit {0})
  append_if true = append_block device >>= λ next. pure tt
  append_if false = pure tt

  -- The loop of `write`, on the bytes that are not written yet, with fuel for so many blocks; the
  -- block that it ends with. Without fuel it panics, which the loop of the source does not.
  unfoldable pub write_rounds : ℕ → Block → List ℕ → Action (Opened W) Block
  write_rounds fuel block [] = pure block
  write_rounds zero block (b ∷ bs) = lift panic
  write_rounds (suc fuel) block (b ∷ bs) = do
    byte ← gets (λ o. o.object.cursor.current_byte)
    (written, n) ← lift (write_to_block block byte (b ∷ bs))
    on_object (on_cursor (advance n))
    if n == length (b ∷ bs) then pure written else (do
      on_fs (flush_block device written)
      next ← next_or_append written
      following ← on_fs (load_block device next false)
      write_rounds fuel following (drop n (b ∷ bs)))

  unfoldable pub write : List ℕ → Action (Opened W) (Unit {0})
  unfolding append_if
  write buffer = do
    first ← gets (λ o. o.object.first_block)
    (if first == null_block then initialize device else pure tt)
    full ← gets_ok (λ o. ends_full o.object)
    append_if full
    index ← gets (λ o. o.object.cursor.current_block)
    block ← get_nth_block device index
    last ← write_rounds (length buffer + 1) block buffer
    on_fs (flush_block device last)
    here ← gets_ok (λ o. position o.object.cursor)
    modify (λ o. record o {
      object = if ltb o.object.size here then record o.object { size = here } else o.object;
    })
