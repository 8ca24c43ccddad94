-- ===== src/Fuse/Reading.antt =====
-- What a read request answers, against the contents of the file's chain of blocks.
use ftn_tananfs.Base.{
  ℕ, ◌+◌, ◌-◌, ◌*◌, ◌^◌, ◌≤◌, ◌<◌, ◌≡◌, refl, ap, ◌∙◌, arith, false, min, List, length, take, drop,
}
use ftn_tananfs.Outcome.{ok}
use ftn_tananfs.Structs.{Inode, Block}
use ftn_tananfs.Word.Int.{pos}
use ftn_tananfs.Cursor.{new as new_cursor}
use ftn_tananfs.Device.{Device}
use ftn_tananfs.Filesystem.{Filesystem}
use ftn_tananfs.Filesystem.Access.{load_inode}
use ftn_tananfs.Filesystem.Resident.{IsResident, load-IsResident}
use ftn_tananfs.RawFile as RawFile
use ftn_tananfs.RawFile.Linked.{IsChain-move, contents}
use ftn_tananfs.RawFile.Nth.{IsFile}
use ftn_tananfs.RegularFile.{RegularFile, load, drop as drop_file}
use ftn_tananfs.RegularFile as RegularFile
use ftn_tananfs.RegularFile.Reading.{IsCursor, read-take-drop}
use ftn_tananfs.Fuse.{Reply}
use ftn_tananfs.Fuse.Files.{with_file, read}

abbrev pub loaded_file : ℕ → Inode → RegularFile
loaded_file block_size n = record {
  inode = n;
  file = RawFile.load block_size n;
  modified = false;
  removed = false;
}

pub new-IsCursor :
    (size : ℕ) (n : Inode) → 8 < size → size ≤ 4096 → IsCursor size (RawFile.load size n).cursor
unfolding RawFile.load new_cursor
new-IsCursor size n more small = record {
  valid = record {
    paddings = omega arith;
    small = omega arith;
    behind_front = omega arith;
    before_back = omega arith;
    far = omega arith;
  };
  block = refl;
  front = refl;
  back = refl;
}

module _ {W : Type 0} (device : Device W) where
  pub load_lem :
      (ino : ℕ) (n : Inode) (fs fs' : Filesystem W)
      → load_inode device ino fs ≡ (ok n, fs')
      → load device ino fs ≡ (ok (loaded_file fs'.superblock.block_size n), fs')
  unfolding load
  load_lem ino n fs fs' e = rw e refl

  -- A handler that reads a file, and drops it unmodified
  read_answer :
      (ino offset size : ℕ) (file : RegularFile) (bs : List ℕ) (fs fs' : Filesystem W)
      → load device ino fs ≡ (ok file, fs')
      → let (r, v) = RegularFile.read device offset size (record { object = file; fs = fs' }) in
        (r ≡ ok bs) × (v.object.modified ≡ false) × (v.object.removed ≡ false)
        → (read device ino (pos offset) size fs).0 ≡ ok (Reply.bytes bs)
  unfolding read with_file drop_file
  read_answer ino offset size file bs fs fs' e (e1, e2, e3) = rw (e, e1) (rw (e2, e3) refl)

  -- The handler of a read at an offset within a file of less than `2 ^ 62` bytes, whose inode is in
  -- the cache and whose blocks of at most 4096 bytes are a chain in the cache: it answers exactly the
  -- bytes of the concatenated contents of the blocks from there on, as many as are asked for, or as
  -- there are to the end of the file if these are fewer.
  pub read-bytes-contents :
      (n : Inode) (offset size : ℕ) (b : Block) (cs : List Block) (fs : Filesystem W)
      → IsResident n fs
      → 8 < fs.superblock.block_size
      → fs.superblock.block_size ≤ 4096
      → fs.superblock.block_size * (length cs + 2) < 2 ^ 62
      → IsFile fs.superblock.block_size b cs (RawFile.load fs.superblock.block_size n) fs
      → n.size < 2 ^ 62
      → offset < n.size
      → (read device n.index (pos offset) size fs).0
        ≡ ok (Reply.bytes (take (min size (n.size - offset)) (drop offset (contents b cs))))
  unfolding RawFile.load
  read-bytes-contents n offset size b cs fs r more small far f few within =
      let (fs', loaded, r', stays, same, stamp) = load-IsResident device n fs r in
      let block_size = fs.superblock.block_size in
      let file = loaded_file block_size n in
      let f' : IsFile block_size b cs file.file fs' = record {
        chain = IsChain-move block_size fs fs' b cs stays f.chain;
        there = f.there;
        first = f.first;
        last = f.last;
        counts = f.counts;
        holds = f.holds;
      } in
      read_answer n.index offset size file _ fs fs'
        (load_lem n.index n fs fs' loaded ∙ ap (λ s. (ok (loaded_file s.block_size n), fs')) same)
        (read-take-drop device block_size offset size b cs (record { object = file; fs = fs' }) more
          small far f' (new-IsCursor block_size n more small) few within)
