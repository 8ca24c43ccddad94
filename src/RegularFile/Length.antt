-- ===== src/RegularFile/Length.antt =====
-- How much `read` of a regular file returns.
use ftn_tananfs.Base.{
  ℕ, ◌-◌, ◌≤◌, ◌<◌, ◌^◌, le→ltb-false, ◌≡◌, refl, ap, sym, ◌∙◌, arith, tests, min, ltb, leb, ◌==◌,
  not, Bool-cases, inl, inr, if◌then◌else◌, List, length,
}
use ftn_tananfs.Error.{Error}
use ftn_tananfs.Outcome.{ok, err, panic, ◌-u◌}
use ftn_tananfs.Outcome.Action.{gets_ok}
use ftn_tananfs.Outcome.Returns.{ok-of-err}
use ftn_tananfs.Outcome.Ends.{run_ok, past_raise_if}
use ftn_tananfs.Cursor.{current}
use ftn_tananfs.Device.{Device}
use ftn_tananfs.Filesystem.Using.{Using, on_object, on_fs}
use ftn_tananfs.RawFile.{RawByteFile, SeekFrom, seek}
use ftn_tananfs.RawFile.Seek.{seek-start}
use ftn_tananfs.Cursor.Moves.{IsValid, current_lem}
use ftn_tananfs.RawFile.ReadLength.{length-read}
use ftn_tananfs.RegularFile.{RegularFile, read, on_file, timestamp_now}

ok-injective : {A : Type 0} {a b : A} → ok a ≡ ok b → a ≡ b
ok-injective h = cc

sought :
    (bytes : ℕ) (file : RawByteFile)
    → bytes ≤ file.size
    → (seek (SeekFrom.start bytes) file).1.size ≡ file.size
unfolding seek
sought bytes file h = rw (le→ltb-false file.size bytes h) refl

in_file :
    (bytes p : ℕ) (file : RawByteFile)
    → (seek (SeekFrom.start bytes) file).0 ≡ ok p
    → bytes ≤ file.size
unfolding seek
in_file bytes p file h = elim (Bool-cases (ltb file.size bytes)) [
  | inl beyond ↦ let e : err Error.io ≡ ok p = simp beyond at h in ok-of-err _ Error.io p e
  | inr within ↦ omega (tests, within)
]

-u-value : (a b c : ℕ) → (a -u b) ≡ ok c → c ≡ a - b
-u-value a b c h = elim (Bool-cases (leb b a)) [
  | inl fits ↦ let e : ok (a - b) ≡ ok c = simp fits at h in cc
  | inr over ↦ let e : panic ≡ ok c = simp over at h in cc
]

least : (a b : ℕ) → (if ltb a b then a else b) ≡ min b a
least a b = ground arith

module _ {W : Type 0} (device : Device W) where
  -- `read` of a regular file that returns bytes is at an offset within the file, and returns as many
  -- bytes as were asked for, or as there are from the offset to the end of the file if these are
  -- fewer: for a file of less than `2 ^ 62` bytes with a valid cursor, whatever its blocks hold.
  pub length-read-min :
      (offset size : ℕ) (u : Using RegularFile W) (bs : List ℕ)
      → IsValid u.object.file.cursor
      → u.object.file.size < 2 ^ 62
      → (read device offset size u).0 ≡ ok bs
      → (offset ≤ u.object.file.size) × (length bs ≡ min size (u.object.file.size - offset))
  unfolding read
  length-read-min offset size u bs v small h =
      let file = u.object.file in
      let (there, e1, h1) = run_ok (on_file (on_object (seek (SeekFrom.start offset)))) _ u bs h in
      let within = in_file offset there file e1 in
      let moved = seek-start file v offset within small in
      let (found, h2) = past_raise_if (not (there == offset)) Error.insufficient_bytes _ _ bs h1 in
      let (here, e3, h3) =
        run_ok (gets_ok (λ (w : Using RegularFile W). current w.object.file.cursor)) _ _ bs h2 in
      let (ahead, e4, h4) =
        run_ok (gets_ok (λ (w : Using RegularFile W). w.object.file.size -u here)) _ _ bs h3 in
      let (now, e5, h5) = run_ok (on_fs (timestamp_now device)) _ _ bs h4 in
      let count = if ltb ahead size then ahead else size in
      let returned : length bs ≡ count = (length-read device count).at _ bs h5 in
      let value : here ≡ offset =
        ok-injective (sym e3 ∙ current_lem _ moved.valid ∙ ap ok moved.offset_is) in
      let left : ahead ≡ file.size - offset =
        -u-value _ here ahead e4 ∙ rw (sought offset file within, value) refl in
      (within, returned ∙ least ahead size ∙ ap (min size) left)
