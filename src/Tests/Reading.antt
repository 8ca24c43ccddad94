-- ===== src/Tests/Reading.antt =====
-- A read request for a file in two blocks.
use ftn_tananfs.Base.{ℕ, ◌≡◌, refl, arith, false, [], ◌∷◌, ◌++◌, take, drop, replicate}
use ftn_tananfs.Outcome.{ok}
use ftn_tananfs.Structs.{Block}
use ftn_tananfs.Bitmap.{get as get_bit}
use ftn_tananfs.Block.{get_next_block, u64_from_bytes, slice, copy_into}
use ftn_tananfs.Filesystem.{Filesystem}
use ftn_tananfs.RawFile.Linked.{IsChain, contents}
use ftn_tananfs.RawFile.Nth.{IsFile}
use ftn_tananfs.RawFile as RawFile
use ftn_tananfs.Word.Int.{pos}
use ftn_tananfs.Filesystem.Resident.{IsResident}
use ftn_tananfs.Fuse.{Reply}
use ftn_tananfs.Fuse.Files.{read}
use ftn_tananfs.Fuse.Reading.{read-bytes-contents}
use ftn_tananfs.Structs.{Inode}
use ftn_tananfs.RawFile.Linked.{IsChain-move}
use ftn_tananfs.Tests.Allocation.{zeros, fs}
use ftn_tananfs.Tests.Requests.{root}

abbrev pub one : Block
one = record { index = 3; bytes = 5 ∷ replicate 7 0 ++ replicate 504 1 }

abbrev pub two : Block
two = record { index = 5; bytes = replicate 512 2 }

abbrev chained : Filesystem ℕ
chained = record fs {
  store = record fs.store {
    cache = record fs.store.cache {
      blocks =
          (3, record { value = one; modified = false; atime = 0 })
          ∷ (5, record { value = two; modified = false; atime = 0 })
          ∷ [];
    };
  };
}

chained-IsChain : IsChain 512 chained one (two ∷ [])
unfolding get_bit get_next_block u64_from_bytes slice copy_into
chained-IsChain =
    IsChain.link (record { used = refl; held = refl }) refl refl refl
      (IsChain.end (record { used = refl; held = refl }) refl)

abbrev pub in_two_blocks : Inode
in_two_blocks = record root { first_block = 3; last_block = 5; block_count = 2; size = 900 }

abbrev with_file : Filesystem ℕ
with_file = record chained {
  store = record chained.store {
    cache = record chained.store.cache {
      inodes = (1, record { value = in_two_blocks; modified = false; atime = 0 }) ∷ [];
    };
  };
}

in_two_blocks-IsResident : IsResident in_two_blocks with_file
unfolding get_bit
in_two_blocks-IsResident = record { used = refl; held = refl }

in_two_blocks-IsFile : IsFile 512 one (two ∷ []) (RawFile.load 512 in_two_blocks) with_file
unfolding RawFile.load
in_two_blocks-IsFile = record {
  chain =
      IsChain-move 512 chained with_file one (two ∷ [])
        (λ c r. record { used = r.used; held = r.held }) chained-IsChain;
  there = refl;
  first = refl;
  last = refl;
  counts = refl;
  holds = omega arith;
}

read-bytes-contents_example :
    (read zeros 1 (pos 500) 1000 with_file).0
    ≡ ok (Reply.bytes (take 400 (drop 500 (contents one (two ∷ [])))))
read-bytes-contents_example =
    read-bytes-contents zeros in_two_blocks 500 1000 one (two ∷ []) with_file
      in_two_blocks-IsResident (omega arith) (omega arith) (omega arith) in_two_blocks-IsFile
      (omega arith) (omega arith)
