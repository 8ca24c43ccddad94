-- ===== src/Fuse/Writing.antt =====
-- What a read request answers after a write request.
use ftn_tananfs.Base.{
  ℕ, IsDistinct, ◌+◌, ◌*◌, ◌%◌, ◌^◌, ◌≤◌, ◌<◌, ◌≡◌, refl, ap, ◌∙◌, arith, Bool, true, false,
  if◌then◌else◌, List, length,
}
use ftn_tananfs.Outcome.{Outcome, ok}
use ftn_tananfs.Outcome.Action.{Action, pure, ◌>>◌, rescued, continue}
use ftn_tananfs.Filesystem.Using.{Using, scoped, finished}
use ftn_tananfs.Structs.{Inode, Block}
use ftn_tananfs.Block.{overwrite}
use ftn_tananfs.Word.Int.{pos}
use ftn_tananfs.Cache.{lookup, inode_eq}
use ftn_tananfs.Bitmap.{get as get_bit}
use ftn_tananfs.Device.{Device}
use ftn_tananfs.Filesystem.{Filesystem}
use ftn_tananfs.Filesystem.Access.{flush_inode}
use ftn_tananfs.Filesystem.Lines.{value_of}
use ftn_tananfs.Filesystem.Quiet.{IsQuiet, flush_inode-quiet}
use ftn_tananfs.Filesystem.Resident.{IsResident, load-IsResident}
use ftn_tananfs.RawFile as RawFile
use ftn_tananfs.RawFile.{RawByteFile, update_inode}
use ftn_tananfs.RawFile.Linked.{IsChain-move, contents}
use ftn_tananfs.RawFile.Nth.{IsFile}
use ftn_tananfs.RawFile.Distinct.{numbers}
use ftn_tananfs.RegularFile.{RegularFile, load, drop as drop_file, timestamp_now}
use ftn_tananfs.RegularFile as RegularFile
use ftn_tananfs.RegularFile.Writing.{touched, timed, first_time, write-touched}
use ftn_tananfs.Fuse.{Reply}
use ftn_tananfs.Fuse.Files.{with_file, write}
use ftn_tananfs.Fuse.Reading.{loaded_file, new-IsCursor, load_lem}

-- The inode that `FileOperations::flush` gives to the filesystem
abbrev flushed_inode : RegularFile → ℕ → Inode
flushed_inode f now = record (update_inode f.file f.inode) {
  mtime = now;
  block_count = f.file.block_count;
  size = f.file.size;
}

module _ {W : Type 0} (device : Device W) where
  abbrev flushed_file : RegularFile → Filesystem W → RegularFile
  flushed_file g fs = record g { inode = flushed_inode g (first_time device fs); modified = false }

  -- The drop of a file that was written to
  drop_modified :
      (g : RegularFile) (fs fs' : Filesystem W)
      → g.removed ≡ false
      → g.modified ≡ true
      → flush_inode device (flushed_inode g (first_time device fs)) (timed device fs) ≡ (ok tt, fs')
      → drop_file device (record { object = g; fs = fs })
        ≡ (ok tt, record { object = flushed_file g fs; fs = fs' })
  unfolding drop_file RegularFile.flush timestamp_now
  drop_modified g fs fs' e1 e2 e3 = rw (e1, e2) (rw e3 refl)

  answered_file :
      (ino : ℕ) (file : RegularFile) (m : Action (Using RegularFile W) Reply) (reply : Reply)
      (fs fs' fs2 : Filesystem W) (g' : RegularFile)
      → load device ino fs ≡ (ok file, fs')
      → scoped (drop_file device) m (record { object = file; fs = fs' })
        ≡ (ok reply, record { object = g'; fs = fs2 })
      → with_file device ino m fs ≡ (ok reply, fs2)
  unfolding with_file
  answered_file ino file m reply fs fs' fs2 g' e scope = rw e (
      ap
        (λ (x : Outcome Reply × Using RegularFile W).
          rescued x.0 (λ e'. pure Reply.unanswered) x.1.fs)
        scope)

  -- A handler that writes to a file, and drops it modified
  write_answer :
      (ino offset : ℕ) (bytes : List ℕ) (file g g' : RegularFile) (fs fs' fs1 fs2 : Filesystem W)
      → load device ino fs ≡ (ok file, fs')
      → RegularFile.write device offset bytes (record { object = file; fs = fs' })
        ≡ (ok tt, record { object = g; fs = fs1 })
      → drop_file device (record { object = g; fs = fs1 })
        ≡ (ok tt, record { object = g'; fs = fs2 })
      → write device ino (pos offset) bytes fs ≡ (ok (Reply.written (length bytes % 2 ^ 32)), fs2)
  unfolding write with_file
  write_answer ino offset bytes file g g' fs fs' fs1 fs2 e e1 e2 =
      let reply = Reply.written (length bytes % 2 ^ 32) in
      let m : Action (Using RegularFile W) Reply =
        RegularFile.write device offset bytes >> pure reply in
      let body : m (record { object = file; fs = fs' })
          ≡ (ok reply, record { object = g; fs = fs1 }) =
        rw e1 refl in
      let scope : scoped (drop_file device) m (record { object = file; fs = fs' })
          ≡ (ok reply, record { object = g'; fs = fs2 }) =
        ap (λ (x : Outcome Reply × Using RegularFile W). finished x.0 (drop_file device) x.1) body
        ∙ ap
            (λ (x : Outcome (Unit {0}) × Using RegularFile W).
              continue (rescued x.0 (λ e'. pure tt) x.1).0 (λ u. pure reply)
                (rescued x.0 (λ e'. pure tt) x.1).1)
            e2 in
      answered_file ino file m reply fs fs' fs2 g' e scope

-- The inodes have the same number, blocks and size.
pub record IsAlike (v n : Inode) : Type 0 where
  pub index : v.index ≡ n.index
  pub first : v.first_block ≡ n.first_block
  pub last : v.last_block ≡ n.last_block
  pub counts : v.block_count ≡ n.block_count
  pub size : v.size ≡ n.size

either-IsAlike :
    (p : Bool) (n n' : Inode) → IsAlike n n → IsAlike n' n → IsAlike (if p then n else n') n
either-IsAlike true n n' same alike = same
either-IsAlike false n n' same alike = alike

module _ {W : Type 0} (device : Device W) where
  -- The filesystem after a write request: the chain of the file is rewritten, and the inode in the
  -- cache has the same blocks and size.
  pub record IsWritten (n : Inode) (offset : ℕ) (bytes : List ℕ) (b : Block) (cs : List Block)
      (fs : Filesystem W) : Type 0 where
    pub inode : Inode
    pub first : Block
    pub others : List Block
    pub after : Filesystem W
    pub run :
        write device n.index (pos offset) bytes fs
        ≡ (ok (Reply.written (length bytes % 2 ^ 32)), after)
    pub alike : IsAlike inode n
    pub resident : IsResident inode after
    pub superblock : after.superblock ≡ fs.superblock
    pub is_file :
        IsFile fs.superblock.block_size first others
          (RawFile.load fs.superblock.block_size inode)
          after
    pub counted : length others ≡ length cs
    pub becomes : contents first others ≡ overwrite offset bytes (contents b cs)

  pub write-IsWritten :
      (n : Inode) (offset : ℕ) (bytes : List ℕ) (b : Block) (cs : List Block) (fs : Filesystem W)
      → IsResident n fs
      → 8 < fs.superblock.block_size
      → fs.superblock.block_size ≤ 4096
      → fs.superblock.block_size * (length cs + 2) < 2 ^ 62
      → IsFile fs.superblock.block_size b cs (RawFile.load fs.superblock.block_size n) fs
      → IsDistinct (numbers b cs)
      → IsQuiet device fs
      → n.size < 2 ^ 62
      → 0 < length bytes
      → offset + length bytes ≤ n.size
      → IsWritten n offset bytes b cs fs
  unfolding RawFile.load update_inode
  write-IsWritten n offset bytes b cs fs r more small far f distinct quiet few some_left fits =
      let (fs', loaded, r', stays, same, stamp) = load-IsResident device n fs r in
      let block_size = fs.superblock.block_size in
      let file = loaded_file block_size n in
      let f' : IsFile block_size b cs file.file fs' = record {
        chain = IsChain-move block_size fs fs' b cs stays f.chain;
        there = f.there;
        first = f.first;
        last = f.last;
        counts = f.counts;
        holds = f.holds;
      } in
      let (cursor, after, b', cs', run, rewritten, g) =
        write-touched device block_size offset bytes b cs (record { object = file; fs = fs' }) more
          small far f' distinct
          (record { last = quiet.last; stamped = stamp ∙ quiet.stamped; recent = quiet.recent })
          (new-IsCursor block_size n more small) few some_left fits in
      let out = touched device file (record file.file { cursor = cursor }) fs' in
      let n' = flushed_inode out (first_time device after) in
      let framed = rewritten.framed in
      let (fs2, flushed, held, stays', kept) =
        flush_inode-quiet device n n' (timed device after)
          (record {
            last = quiet.last;
            stamped = framed.last_flush ∙ stamp ∙ quiet.stamped;
            recent = quiet.recent;
          })
          (record {
            used = ap (λ i. get_bit i n.index) framed.kept.inodes ∙ r'.used;
            held = ap (λ l. value_of (lookup n.index l)) framed.inode_lines ∙ r'.held;
          })
          refl in
      let v = if inode_eq n n' then n else n' in
      let same_inode : IsAlike n n = record {
        index = refl;
        first = refl;
        last = refl;
        counts = refl;
        size = refl;
      } in
      let a : IsAlike v n =
        either-IsAlike (inode_eq n n') n n' same_inode
          (record { index = refl; first = refl; last = refl; counts = refl; size = refl }) in
      record {
        inode = v;
        first = b';
        others = cs';
        after = fs2;
        run =
            write_answer device n.index offset bytes file out (flushed_file device out after) fs fs'
              after fs2
              (load_lem device n.index n fs fs' loaded
                ∙ ap (λ s. (ok (loaded_file s.block_size n), fs')) same)
              run (drop_modified device out after fs2 refl refl flushed);
        alike = a;
        resident = record {
          used =
              (λ i. get_bit (kept.inodes i) (a.index i))
              ∙ ap (λ i. get_bit i n.index) framed.kept.inodes
              ∙ r'.used;
          held = ap (λ i. value_of (lookup i fs2.store.cache.inodes)) a.index ∙ held;
        };
        superblock = kept.superblock ∙ framed.kept.superblock ∙ same;
        is_file = record {
          chain =
              IsChain-move block_size after fs2 b' cs'
                (λ c h. stays' c (record { used = h.used; held = h.held })) g.chain;
          there = g.there;
          first = a.first ∙ g.first;
          last = a.last ∙ g.last;
          counts = a.counts ∙ g.counts;
          holds = omega (arith, a.size, g.holds);
        };
        counted = omega (arith, g.counts, f.counts);
        becomes = rewritten.becomes;
      }
