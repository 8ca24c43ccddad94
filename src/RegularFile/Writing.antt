-- ===== src/RegularFile/Writing.antt =====
-- `write` of a regular file within the blocks that it has, and the drop behind it.
use native.Mathlib.Nat.{lt_of_mul-lt-mul_left}
use ftn_tananfs.Base.{
  ℕ, IsDistinct, ◌+◌, ◌-◌, ◌*◌, ◌^◌, ◌≤◌, ◌<◌, ◌≡◌, refl, sym, ap, ◌∙◌, arith, ◌==◌, eq→==, true,
  List, length,
}
use mathlib.Core.Path.{subst}
use ftn_tananfs.Outcome.{ok}
use ftn_tananfs.Structs.{Block}
use ftn_tananfs.Cursor.{BlockCursor}
use ftn_tananfs.Cursor.Moves.{offset}
use ftn_tananfs.Device.{Device}
use ftn_tananfs.Filesystem.{Filesystem}
use ftn_tananfs.Filesystem.Quiet.{IsQuiet}
use ftn_tananfs.Filesystem.Using.{Using}
use ftn_tananfs.RawFile.{RawByteFile, SeekFrom, seek}
use ftn_tananfs.RawFile.Write.{write as write_raw}
use ftn_tananfs.RawFile.Linked.{cursor_at}
use ftn_tananfs.RawFile.Nth.{IsFile, length-contents, offset-cursor_at}
use ftn_tananfs.RawFile.Distinct.{numbers}
use ftn_tananfs.RawFile.Rewriting.{Rewritten, Rewritten-loaded}
use ftn_tananfs.RawFile.Writing.{write-Written}
use ftn_tananfs.Filesystem.Resident.{Stays}
use ftn_tananfs.RegularFile.{RegularFile, write, timestamp_now}
use ftn_tananfs.RegularFile.Reading.{IsCursor, is_cursor_at, seek-Sought, IsFile-clock}

module _ {W : Type 0} (device : Device W) where
  -- The filesystem and the two times after `timestamp_now` was called twice
  abbrev pub first_time : Filesystem W → ℕ
  first_time fs = (device.unix_time fs.store.world).0

  abbrev pub timed : Filesystem W → Filesystem W
  timed fs = record fs { store = record fs.store { world = (device.unix_time fs.store.world).1 } }

  abbrev pub touched : RegularFile → RawByteFile → Filesystem W → RegularFile
  touched f raw fs = record f {
    inode = record f.inode { atime = first_time fs; mtime = first_time (timed fs) };
    file = raw;
    modified = true;
  }

  write_steps :
      (bytes : ℕ) (buffer : List ℕ) (u : Using RegularFile W) (out raw : RawByteFile)
      (after : Filesystem W)
      → seek (SeekFrom.start bytes) u.object.file ≡ (ok bytes, out)
      → (bytes == bytes) ≡ true
      → write_raw device buffer (record { object = out; fs = timed (timed u.fs) })
        ≡ (ok tt, record { object = raw; fs = after })
      → write device bytes buffer u
        ≡ (ok tt, record { object = touched u.object raw u.fs; fs = after })
  unfolding write timestamp_now
  write_steps bytes buffer u out raw after e1 e2 e3 = rw (e1, e2, e3) refl

  -- A regular file of less than `2 ^ 62` bytes whose blocks of at most 4096 bytes are a chain of
  -- different blocks in the cache, while no flush is due: `write` of some bytes that end within the
  -- file succeeds. The file has the same blocks then, with the bytes written over their contents from the offset on.
  pub write-touched :
      (block_size bytes : ℕ) (buffer : List ℕ) (b : Block) (cs : List Block)
      (u : Using RegularFile W)
      → 8 < block_size
      → block_size ≤ 4096
      → block_size * (length cs + 2) < 2 ^ 62
      → IsFile block_size b cs u.object.file u.fs
      → IsDistinct (numbers b cs)
      → IsQuiet device u.fs
      → IsCursor block_size u.object.file.cursor
      → u.object.file.size < 2 ^ 62
      → 0 < length buffer
      → bytes + length buffer ≤ u.object.file.size
      → (cursor : BlockCursor) × (after : Filesystem W) × (b' : Block) × (cs' : List Block) × (write
            device bytes buffer u
          ≡ (
            ok tt,
            record {
              object = touched u.object (record u.object.file { cursor = cursor }) u.fs;
              fs = after;
            },
          ))
        × Rewritten block_size bytes buffer u.fs b cs after b' cs'
        × IsFile block_size b' cs' (record u.object.file { cursor = cursor }) after
  unfolding timestamp_now
  write-touched block_size bytes buffer b cs u more small far f distinct quiet cursor few some_left
        fits =
      let file = u.object.file in
      let out = (seek (SeekFrom.start bytes) file).1 in
      let s = seek-Sought block_size bytes file cursor (omega arith) few in
      let k = out.cursor.current_block in
      let m = out.cursor.current_byte - 8 in
      let at = is_cursor_at block_size out.cursor s.cursor in
      let position : offset (cursor_at block_size k m) ≡ bytes = sym (ap offset at) ∙ s.there in
      let fs' = timed (timed u.fs) in
      let whole = length-contents block_size u.fs b cs more f.chain in
      let before : (block_size - 8) * k < (block_size - 8) * (length cs + 1) =
        omega (arith, position, offset-cursor_at block_size k m, whole, f.holds, fits, some_left) in
      let in_block : k < file.block_count =
        omega (arith, lt_of_mul-lt-mul_left (block_size - 8) before, f.counts) in
      let stands : out ≡ record file { cursor = cursor_at block_size k m } =
        s.same ∙ ap (λ c. record file { cursor = c }) at in
      let w =
        write-Written device block_size k m buffer b cs file fs' more small
          (omega (
            arith, s.inside, s.cursor.block, s.cursor.back, s.cursor.front,
            s.cursor.valid.behind_front,
          ))
          far
          (IsFile-clock device block_size b cs file (timed u.fs)
            (IsFile-clock device block_size b cs file u.fs f))
          distinct (record { last = quiet.last; stamped = quiet.stamped; recent = quiet.recent })
          in_block some_left (omega (arith, position, fits)) in
      let r =
        Rewritten-loaded block_size (offset (cursor_at block_size k m)) buffer u.fs fs' w.after b
          w.first cs w.others timed_twice w.rewritten in
      (
        w.cursor,
        w.after,
        w.first,
        w.others,
        write_steps bytes buffer u out (record file { cursor = w.cursor }) w.after s.runs
            (eq→== bytes bytes refl)
            (ap (λ o. write_raw device buffer (record { object = o; fs = fs' })) stands ∙ w.run),
        subst (λ i. Rewritten block_size i buffer u.fs b cs w.after w.first w.others) position r,
        w.is_file,
      )
    where
      timed_twice : Stays u.fs (timed (timed u.fs))
      timed_twice = record {
        cached = λ c h. record { used = h.used; held = h.held };
        framed = record {
          kept = record { superblock = refl; inodes = refl; blocks = refl };
          last_flush = refl;
          inode_lines = refl;
        };
      }
