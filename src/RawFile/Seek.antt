-- ===== src/RawFile/Seek.antt =====
-- `seek` in a raw file.
use ftn_tananfs.Base.{ℕ, suc, ◌-◌, ◌^◌, ◌≤◌, ◌<◌, arith, le→ltb-false}
use ftn_tananfs.Outcome.{Outcome}
use ftn_tananfs.Cursor.{BlockCursor}
use ftn_tananfs.Cursor.Moves.{IsValid, Moved, offset, position-current}
use ftn_tananfs.Cursor.Regress.{set-Moved, regress-Moved}
use ftn_tananfs.Word.Int.{negsuc}
use ftn_tananfs.RawFile.{RawByteFile, SeekFrom, negsuc, seek, seek_by}

abbrev pub moved_cursor : Outcome ℕ × RawByteFile → Outcome ℕ × BlockCursor
moved_cursor (r, file) = (r, file.cursor)

module _ (file : RawByteFile) (v : IsValid file.cursor) where
  -- In a file of less than `2 ^ 62` bytes with a valid cursor, `SeekFrom::Start` of at most the size
  -- goes to that position and returns it.
  pub seek-start :
      (bytes : ℕ)
      → bytes ≤ file.size
      → file.size < 2 ^ 62
      → Moved file.cursor bytes (moved_cursor (seek (SeekFrom.start bytes) file))
  unfolding seek
  seek-start bytes h small =
      rw (le→ltb-false file.size bytes h) (set-Moved bytes file.cursor v (omega arith))

  -- With a valid cursor, `SeekFrom::Current` of a negative number of bytes that is less far than the
  -- start of the file goes back by them and returns the new position.
  pub seek-current_back :
      (n : ℕ)
      → suc n < offset file.cursor
      → Moved file.cursor
          (offset file.cursor - suc n)
          (moved_cursor (seek (SeekFrom.current (negsuc n)) file))
  unfolding seek seek_by
  seek-current_back n h =
      rw (position-current file.cursor v, le→ltb-false (offset file.cursor) (suc n) (omega arith))
        (regress-Moved (suc n) file.cursor v h)
