-- ===== src/RegularFile/Reading.antt =====
-- `read` of a regular file against the contents of its chain of blocks.
use ftn_tananfs.Base.{
  ℕ, ◌+◌, ◌-◌, ◌*◌, ◌^◌, ◌≤◌, ◌<◌, ◌≡◌, refl, sym, ap, ◌∙◌, arith, ltb, ◌==◌, min, List, length,
  take, drop, le→ltb-false, eq→==, if◌then◌else◌, true,
}
use native.Mathlib.Nat.{lt_of_mul-lt-mul_left}
use ftn_tananfs.Outcome.{ok, -u-ok, ◌-u◌}
use ftn_tananfs.Structs.{Block}
use ftn_tananfs.Cursor.{BlockCursor, current}
use ftn_tananfs.Cursor.Moves.{IsValid, offset, current_lem}
use ftn_tananfs.Cursor.Inside.{IsInside, set-IsInside}
use ftn_tananfs.Device.{Device}
use ftn_tananfs.Filesystem.{Filesystem}
use ftn_tananfs.Filesystem.Using.{Using}
use ftn_tananfs.RawFile.{RawByteFile, SeekFrom, seek}
use ftn_tananfs.RawFile.Read.{read as read_raw}
use ftn_tananfs.RawFile.Seek.{seek-start}
use ftn_tananfs.RawFile.Linked.{IsChain-move, contents, cursor_at}
use ftn_tananfs.RawFile.Nth.{IsFile, length-contents, offset-cursor_at}
use ftn_tananfs.RawFile.Reading.{read-contents}
use ftn_tananfs.RegularFile.{RegularFile, read, timestamp_now}

-- The cursor of a raw file in front of whose blocks' data is the number of the next block
pub record IsCursor (size : ℕ) (c : BlockCursor) : Type 0 where
  pub valid : IsValid c
  pub block : c.block_size ≡ size
  pub front : c.block_padding_front ≡ 8
  pub back : c.block_padding_back ≡ 0

pub is_cursor_at :
    (size : ℕ) (c : BlockCursor)
    → IsCursor size c
    → c ≡ cursor_at size c.current_block (c.current_byte - 8)
is_cursor_at size c h = λ i. record {
  block_size = h.block i;
  block_padding_front = h.front i;
  block_padding_back = h.back i;
  current_block = c.current_block;
  current_byte =
      (let e : c.current_byte ≡ 8 + (c.current_byte - 8) =
          omega (arith, h.front, h.valid.behind_front) in
        e i);
}

-- `seek` to a position in the file
pub record Sought (size bytes : ℕ) (file : RawByteFile) (out : RawByteFile) : Type 0 where
  pub cursor : IsCursor size out.cursor
  pub inside : IsInside out.cursor
  pub there : offset out.cursor ≡ bytes
  pub same : out ≡ record file { cursor = out.cursor }
  pub runs : seek (SeekFrom.start bytes) file ≡ (ok bytes, out)

pub seek-Sought :
    (size bytes : ℕ) (file : RawByteFile)
    → IsCursor size file.cursor
    → bytes ≤ file.size
    → file.size < 2 ^ 62
    → Sought size bytes file (seek (SeekFrom.start bytes) file).1
unfolding seek
seek-Sought size bytes file c h small =
    let m = seek-start file c.valid bytes h small in
    let (block, front, back) = m.shape in
    record {
      cursor = record {
        valid = m.valid;
        block = block ∙ c.block;
        front = front ∙ c.front;
        back = back ∙ c.back;
      };
      inside =
          rw (le→ltb-false file.size bytes h)
            (set-IsInside bytes file.cursor c.valid (omega arith));
      there = m.offset_is;
      same = rw (le→ltb-false file.size bytes h) refl;
      runs = ap (λ r. (r, (seek (SeekFrom.start bytes) file).1)) m.returned;
    }

least : (a b : ℕ) → (if ltb a b then a else b) ≡ min b a
least a b = ground arith

module _ {W : Type 0} (device : Device W) where
  read_steps :
      (offset size left : ℕ) (u : Using RegularFile W) (out : RawByteFile) (bs : List ℕ)
      → seek (SeekFrom.start offset) u.object.file ≡ (ok offset, out)
      → (offset == offset) ≡ true
      → current out.cursor ≡ ok offset
      → (out.size -u offset) ≡ ok left
      → (read_raw device
          (if ltb left size then left else size)
          (record { object = out; fs = (timestamp_now device u.fs).1 })).0
        ≡ ok bs
      → let (r, v) = read device offset size u in
        (r ≡ ok bs)
        × (v.object.modified ≡ u.object.modified)
        × (v.object.removed ≡ u.object.removed)
  unfolding read timestamp_now
  read_steps offset size left u out bs e1 e2 e3 e4 e5 = rw (e1, e2, e3, e4) (e5, refl, refl)

  pub IsFile-clock :
      (size : ℕ) (b : Block) (cs : List Block) (file : RawByteFile) (fs : Filesystem W)
      → IsFile size b cs file fs
      → IsFile size b cs file (timestamp_now device fs).1
  unfolding timestamp_now
  IsFile-clock size b cs file fs f = record {
    chain =
        IsChain-move size fs (timestamp_now device fs).1 b cs
          (λ c r. record { used = r.used; held = r.held }) f.chain;
    there = f.there;
    first = f.first;
    last = f.last;
    counts = f.counts;
    holds = f.holds;
  }

  -- A regular file of less than `2 ^ 62` bytes whose blocks of at most 4096 bytes are a chain in the
  -- cache: `read` at an offset within the file succeeds, and returns exactly the bytes of the
  -- concatenated contents of the blocks from there on, as many as are asked for, or as there are to
  -- the end of the file if these are fewer. The file is as modified and removed as before.
  pub read-take-drop :
      (block_size offset size : ℕ) (b : Block) (cs : List Block) (u : Using RegularFile W)
      → 8 < block_size
      → block_size ≤ 4096
      → block_size * (length cs + 2) < 2 ^ 62
      → IsFile block_size b cs u.object.file u.fs
      → IsCursor block_size u.object.file.cursor
      → u.object.file.size < 2 ^ 62
      → offset < u.object.file.size
      → let (r, v) = read device offset size u in
        (r ≡ ok (take (min size (u.object.file.size - offset)) (drop offset (contents b cs))))
        × (v.object.modified ≡ u.object.modified)
        × (v.object.removed ≡ u.object.removed)
  read-take-drop block_size bytes size b cs u more small far f cursor few within =
      let file = u.object.file in
      let out = (seek (SeekFrom.start bytes) file).1 in
      let s = seek-Sought block_size bytes file cursor (omega arith) few in
      let k = out.cursor.current_block in
      let m = out.cursor.current_byte - 8 in
      let at = is_cursor_at block_size out.cursor s.cursor in
      let position : offset (cursor_at block_size k m) ≡ bytes = sym (ap offset at) ∙ s.there in
      let fs' = (timestamp_now device u.fs).1 in
      let whole = length-contents block_size u.fs b cs more f.chain in
      let before : (block_size - 8) * k < (block_size - 8) * (length cs + 1) =
        omega (arith, position, offset-cursor_at block_size k m, whole, f.holds, within) in
      let in_block : k < file.block_count =
        omega (arith, lt_of_mul-lt-mul_left (block_size - 8) before, f.counts) in
      let left = file.size - bytes in
      let count = if ltb left size then left else size in
      let fewest = least left size in
      let result =
        read-contents device block_size k m count b cs file fs' more small
          (omega (
            arith, s.inside, s.cursor.block, s.cursor.back, s.cursor.front,
            s.cursor.valid.behind_front,
          ))
          far (IsFile-clock block_size b cs file u.fs f) in_block
          (omega (arith, position, fewest)) in
      read_steps bytes size left u out (take (min size left) (drop bytes (contents b cs))) s.runs
        (eq→== bytes bytes refl) (current_lem out.cursor s.cursor.valid ∙ ap ok s.there)
        (ap (λ o. o.size -u bytes) s.same ∙ -u-ok file.size bytes (omega arith))
        (ap (λ o. (read_raw device count (record { object = o; fs = fs' })).0)
            (s.same ∙ ap (λ c. record file { cursor = c }) at)
          ∙ result
          ∙ ap (λ p. ok (take count (drop p (contents b cs)))) position
          ∙ ap (λ n. ok (take n (drop bytes (contents b cs)))) fewest)
