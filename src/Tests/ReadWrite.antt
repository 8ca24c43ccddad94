-- ===== src/Tests/ReadWrite.antt =====
-- A filesystem with a file in two blocks: a write request across them, the read requests behind it, and
-- how often a block can be acquired.
use ftn_tananfs.Base.{
  ℕ, IsAmiss, IsDistinct, ◌-◌, ◌<◌, ◌≡◌, refl, arith, true, false, some, length, List, [], ◌∷◌, min,
  take, drop, replicate,
}
use ftn_tananfs.Outcome.{ok, err}
use ftn_tananfs.Bitmap.{get as get_bit}
use ftn_tananfs.Block.{get_next_block, u64_from_bytes, slice, copy_into, overwrite}
use ftn_tananfs.Filesystem.{Filesystem}
use ftn_tananfs.Error.{Error}
use ftn_tananfs.Bitmap.Bits.{occupied}
use ftn_tananfs.Filesystem.Allocator.{acquire_block}
use ftn_tananfs.Filesystem.Accounts.{IsAccounted}
use ftn_tananfs.Filesystem.Accounts.Exhaustion.{Acquires, acquire_block-Acquires}
use ftn_tananfs.Filesystem.Quiet.{IsQuiet}
use ftn_tananfs.Filesystem.Resident.{IsResident}
use ftn_tananfs.RawFile as RawFile
use ftn_tananfs.RawFile.Linked.{IsChain, contents}
use ftn_tananfs.RawFile.Nth.{IsFile}
use ftn_tananfs.RawFile.Distinct.{numbers}
use ftn_tananfs.Word.Int.{pos}
use ftn_tananfs.Fuse.{Reply}
use ftn_tananfs.Fuse.Files.{read, write}
use ftn_tananfs.Fuse.ReadWrite.{read-write}
use ftn_tananfs.Tests.Disk.{Disk, disk}
use ftn_tananfs.Tests.Allocation.{zeros}
use ftn_tananfs.Tests.Allocation as Allocation
use ftn_tananfs.Tests.Reading.{one, two, in_two_blocks}

abbrev fs : Filesystem Disk
fs = record {
  superblock = Allocation.fs.superblock;
  inodes = Allocation.fs.inodes;
  blocks = Allocation.fs.blocks;
  store = record {
    world = record { content = []; place = 0 };
    cache = record {
      inodes = (1, record { value = in_two_blocks; modified = false; atime = 0 }) ∷ [];
      blocks =
          (3, record { value = one; modified = false; atime = 0 })
          ∷ (5, record { value = two; modified = false; atime = 0 })
          ∷ [];
    };
    last_flush = some 0;
  };
}

fs-IsResident : IsResident in_two_blocks fs
unfolding get_bit
fs-IsResident = record { used = refl; held = refl }

fs-IsChain : IsChain 512 fs one (two ∷ [])
unfolding get_bit get_next_block u64_from_bytes slice copy_into
fs-IsChain =
    IsChain.link (record { used = refl; held = refl }) refl refl refl
      (IsChain.end (record { used = refl; held = refl }) refl)

fs-IsFile : IsFile 512 one (two ∷ []) (RawFile.load 512 in_two_blocks) fs
unfolding RawFile.load
fs-IsFile = record {
  chain = fs-IsChain;
  there = refl;
  first = refl;
  last = refl;
  counts = refl;
  holds = omega arith;
}

fs-IsQuiet : IsQuiet disk fs
fs-IsQuiet = record { last = 0; stamped = refl; recent = λ w. omega arith }

fs-IsDistinct : IsDistinct (numbers one (two ∷ []))
fs-IsDistinct =
    IsDistinct.one_more (IsAmiss.one_more (λ e. absurd (omega (arith, e))) IsAmiss.none_left)
      (IsDistinct.one_more IsAmiss.none_left IsDistinct.none_left)

abbrev bytes : List ℕ
bytes = replicate 100 9

read-write_example :
    let (reply, fs') = write disk 1 (pos 450) bytes fs in
    (reply ≡ ok (Reply.written 100))
    × ((at size : ℕ)
        → at < 900
        → (read disk 1 (pos at) size fs').0
          ≡ ok (
              Reply.bytes (
                take
                  (min size (900 - at))
                  (drop at (overwrite 450 bytes (contents one (two ∷ [])))))))
    × ((read disk 1 (pos 450) 100 fs').0 ≡ ok (Reply.bytes bytes))
read-write_example =
    read-write disk in_two_blocks 450 bytes one (two ∷ []) fs fs-IsResident (omega arith)
      (omega arith) (omega arith) fs-IsFile fs-IsDistinct fs-IsQuiet (omega arith) (omega arith)
      (omega arith)

fs-IsAccounted : IsAccounted 0 fs
fs-IsAccounted = record {
  of_inodes = Allocation.fs-IsAccounted.of_inodes;
  of_blocks = Allocation.fs-IsAccounted.of_blocks;
}

acquire_block-Acquires_example :
    (is : List ℕ) × (fs' : Filesystem Disk) × Acquires disk is fs fs'
    × (length is ≡ 5)
    × IsDistinct is
    × ((j : ℕ) → occupied fs.blocks j ≡ true → IsAmiss j is)
    × (acquire_block disk fs' ≡ (err Error.out_of_memory, fs'))
acquire_block-Acquires_example = acquire_block-Acquires disk fs fs-IsAccounted fs-IsQuiet
