-- ===== src/RawFile/Read.antt =====
-- `read` of a raw file, and the readers of src/filetypes/helpers.rs.
use ftn_tananfs.Base.{
  ℕ, zero, suc, ◌+◌, ltb, ◌==◌, if◌then◌else◌, false, not, List, [], ◌∷◌, ◌++◌, length, take, drop,
  replicate,
}
use ftn_tananfs.Error.{Error}
use ftn_tananfs.Outcome.{panic, ◌-u◌}
use ftn_tananfs.Outcome.Action.{Action, pure, lift, gets, gets_ok, raise_if, ◌>>=◌, ◌>>◌}
use ftn_tananfs.Structs.{Block}
use ftn_tananfs.Word.Bytes.{from_be}
use ftn_tananfs.Word.Utf8.{is_utf8}
use ftn_tananfs.Block.{get_next_block, read_from_block}
use ftn_tananfs.Cursor.{advance, position}
use ftn_tananfs.Device.{Device}
use ftn_tananfs.Filesystem.Using.{on_object, on_fs}
use ftn_tananfs.Filesystem.Access.{load_block}
use ftn_tananfs.RawFile.{Opened, on_cursor, get_nth_block}

module _ {W : Type 0} (device : Device W) where
  -- The loop of `read`, on the part of the buffer that is not filled yet, with fuel for so many
  -- blocks; the bytes that were read. Without fuel it panics, which the loop of the source does not.
  unfoldable pub read_rounds : ℕ → Block → List ℕ → Action (Opened W) (List ℕ)
  read_rounds fuel block [] = pure []
  read_rounds zero block (b ∷ bs) = lift panic
  read_rounds (suc fuel) block (b ∷ bs) = do
    byte ← gets (λ o. o.object.cursor.current_byte)
    (filled, n) ← lift (read_from_block block byte (b ∷ bs))
    on_object (on_cursor (advance n))
    if n == length filled then pure filled else (do
      next ← lift (get_next_block block)
      following ← on_fs (load_block device next false)
      rest ← read_rounds fuel following (drop n filled)
      pure (take n filled ++ rest))

  -- `read` into a buffer of the given length: the contents of the buffer
  unfoldable pub read : ℕ → Action (Opened W) (List ℕ)
  read count = do
    here ← gets_ok (λ o. position o.object.cursor)
    left ← gets_ok (λ o. o.object.size -u here)
    raise_if (ltb left count) Error.out_of_bounds
    index ← gets (λ o. o.object.cursor.current_block)
    block ← get_nth_block device index
    read_rounds (count + 1) block (replicate count 0)

  unfoldable pub read_u16 : Action (Opened W) ℕ
  read_u16 = do raw ← read 2; pure (from_be raw)

  unfoldable pub read_u64 : Action (Opened W) ℕ
  read_u64 = do raw ← read 8; pure (from_be raw)

  unfoldable pub read_string : ℕ → Action (Opened W) (List ℕ)
  read_string count = do raw ← read count; raise_if (not (is_utf8 raw)) Error.utf8; pure raw

  unfoldable pub read_sized_string : Action (Opened W) (List ℕ)
  read_sized_string = do count ← read_u16; read_string count
