-- ===== src/Fuse/ReadWrite.antt =====
-- A write request, and the read requests behind it.
use mathlib.Core.Path.{subst}
use ftn_tananfs.Base.{
  ℕ, IsDistinct, ◌+◌, ◌-◌, ◌*◌, ◌%◌, ◌^◌, ◌≤◌, ◌<◌, ◌≡◌, sym, ap, ◌∙◌, arith, min, List, length,
  take, drop,
}
use ftn_tananfs.Outcome.{ok}
use ftn_tananfs.Structs.{Inode, Block}
use ftn_tananfs.Block.{overwrite}
use ftn_tananfs.Block.Data.{slice-overwrite_self}
use ftn_tananfs.Word.Int.{pos}
use ftn_tananfs.Device.{Device}
use ftn_tananfs.Filesystem.{Filesystem}
use ftn_tananfs.Filesystem.Quiet.{IsQuiet}
use ftn_tananfs.Filesystem.Resident.{IsResident}
use ftn_tananfs.RawFile as RawFile
use ftn_tananfs.RawFile.Linked.{contents}
use ftn_tananfs.RawFile.Nth.{IsFile}
use ftn_tananfs.RawFile.Distinct.{numbers}
use ftn_tananfs.Fuse.{Reply}
use ftn_tananfs.Fuse.Files.{read, write}
use ftn_tananfs.Fuse.Reading.{read-bytes-contents}
use ftn_tananfs.Fuse.Writing.{IsWritten, write-IsWritten}

module _ {W : Type 0} (device : Device W) where
  -- A read of the file that was written to
  read_written :
      (n : Inode) (offset : ℕ) (bytes : List ℕ) (b : Block) (cs : List Block) (fs : Filesystem W)
      (at size : ℕ)
      → (w : IsWritten device n offset bytes b cs fs) → 8 < fs.superblock.block_size
      → fs.superblock.block_size ≤ 4096
      → fs.superblock.block_size * (length cs + 2) < 2 ^ 62
      → n.size < 2 ^ 62
      → at < n.size
      → (read device n.index (pos at) size w.after).0
        ≡ ok (
            Reply.bytes
              (take (min size (n.size - at)) (drop at (overwrite offset bytes (contents b cs)))))
  read_written n offset bytes b cs fs at size w more small far few within =
      let same : fs.superblock.block_size ≡ w.after.superblock.block_size =
        sym (ap (λ s. s.block_size) w.superblock) in
      ap (λ i. (read device i (pos at) size w.after).0) (sym w.alike.index)
      ∙ read-bytes-contents device w.inode at size w.first w.others w.after w.resident
          (omega (arith, same, more)) (omega (arith, same, small))
          (subst (λ s. s * (length w.others + 2) < 2 ^ 62) same (rw w.counted far))
          (subst (λ s. IsFile s w.first w.others (RawFile.load s w.inode) w.after) same w.is_file)
          (omega (arith, w.alike.size, few)) (omega (arith, w.alike.size, within))
      ∙ (λ i. ok (Reply.bytes (take (min size (w.alike.size i - at)) (drop at (w.becomes i)))))

  -- A file of less than `2 ^ 62` bytes whose inode is in the cache and whose blocks of at most 4096 bytes
  -- are a chain of different blocks in the cache, while no flush is due: a write request for some bytes
  -- that end within the file answers their number, cut to 32 bits. A read request behind it answers the
  -- bytes of the former contents with these written over them: as many as are asked for, or as there are
  -- to the end of the file if these are fewer. In particular, a read of the same range answers the bytes.
  pub read-write :
      (n : Inode) (offset : ℕ) (bytes : List ℕ) (b : Block) (cs : List Block) (fs : Filesystem W)
      → IsResident n fs
      → 8 < fs.superblock.block_size
      → fs.superblock.block_size ≤ 4096
      → fs.superblock.block_size * (length cs + 2) < 2 ^ 62
      → IsFile fs.superblock.block_size b cs (RawFile.load fs.superblock.block_size n) fs
      → IsDistinct (numbers b cs)
      → IsQuiet device fs
      → n.size < 2 ^ 62
      → 0 < length bytes
      → offset + length bytes ≤ n.size
      → let (reply, fs') = write device n.index (pos offset) bytes fs in
        (reply ≡ ok (Reply.written (length bytes % 2 ^ 32)))
        × ((at size : ℕ)
            → at < n.size
            → (read device n.index (pos at) size fs').0
              ≡ ok (
                  Reply.bytes (
                    take
                      (min size (n.size - at))
                      (drop at (overwrite offset bytes (contents b cs))))))
        × ((read device n.index (pos offset) (length bytes) fs').0 ≡ ok (Reply.bytes bytes))
  unfolding RawFile.load
  read-write n offset bytes b cs fs r more small far f distinct quiet few some_left fits =
      let w =
        write-IsWritten device n offset bytes b cs fs r more small far f distinct quiet few
          some_left fits in
      let state : w.after ≡ (write device n.index (pos offset) bytes fs).1 =
        sym (ap (λ x. x.1) w.run) in
      let least : min (length bytes) (n.size - offset) ≡ length bytes = omega (arith, fits) in
      (
        ap (λ x. x.0) w.run,
        λ at size within.
            ap (λ t. (read device n.index (pos at) size t).0) (sym state)
            ∙ read_written n offset bytes b cs fs at size w more small far few within,
        ap (λ t. (read device n.index (pos offset) (length bytes) t).0) (sym state)
            ∙ read_written n offset bytes b cs fs offset (length bytes) w more small far few
                (omega (arith, fits, some_left))
            ∙ ap
                (λ k.
                  ok (Reply.bytes (take k (drop offset (overwrite offset bytes (contents b cs))))))
                least
            ∙ ap (λ t. ok (Reply.bytes t))
                (slice-overwrite_self offset bytes (contents b cs) (omega (arith, f.holds, fits))),
      )
