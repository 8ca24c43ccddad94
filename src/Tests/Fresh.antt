-- ===== src/Tests/Fresh.antt =====
-- The start of the program on a device of zeros.
use ftn_tananfs.Base.{
  List, [], ◌∷◌, inl, inr, ℕ, zero, suc, ◌+◌, ◌^◌, ◌≡◌, ◌≢◌, refl, arith, some, take, drop,
  replicate, length-replicate,
}
use ftn_tananfs.Outcome.{ok}
use ftn_tananfs.Structs.{magic_signature}
use ftn_tananfs.Word.Bytes.{from_le}
use ftn_tananfs.Superblock.Layout.{IsDevice}
use ftn_tananfs.Filesystem.{Filesystem}
use ftn_tananfs.Filesystem.Accounts.{IsAccounted}
use ftn_tananfs.Filesystem.Mount.{new}
use ftn_tananfs.Main.{start}
use ftn_tananfs.Main.Detection.{signature_at}
use ftn_tananfs.Main.Fresh.{Asks, start-new}
use ftn_tananfs.Tests.Disk.{Disk, disk, disk-IsMemory}

abbrev blank : Disk
blank = record { content = replicate 70000 0; place = 0 }

from_le-zeros : (n k : ℕ) → from_le (take n (replicate k 0)) ≡ 0
from_le-zeros zero k = refl
from_le-zeros (suc n) zero = refl
from_le-zeros (suc n) (suc k) = let ih = from_le-zeros n k in omega (arith, ih)

from_le-blank : (n m k : ℕ) → from_le (take n (drop m (replicate k 0))) ≡ 0
from_le-blank n zero k = from_le-zeros n k
from_le-blank n (suc m) zero = from_le-zeros n zero
from_le-blank n (suc m) (suc k) = from_le-blank n m k

unsigned : (p : ℕ) → signature_at p blank.content ≢ magic_signature
unsigned p e = let clear = from_le-blank 8 (2 ^ p + 0x38) 70000 in absurd (omega (arith, e, clear))

-- The program's name, the device, the mount point and a block size
abbrev args : List (List ℕ)
args = (0x74 ∷ []) ∷ (0x64 ∷ []) ∷ (0x6d ∷ []) ∷ (0x31 ∷ 0x30 ∷ 0x32 ∷ 0x34 ∷ []) ∷ []

start-new_example :
    (fs : Filesystem Disk) × (w : Disk) × (start disk
        (λ value. some 1024)
        (λ w. ok 70000)
        args
        blank
      ≡ ok fs)
    × (new 70000 1024 w ≡ ok fs)
    × (fs.superblock.block_size ≡ 1024)
    × IsAccounted 0 fs
    × (fs.superblock.blocks_free ≡ fs.superblock.block_count)
    × (fs.superblock.inodes_free ≡ fs.superblock.inode_count)
    × (fs.store.world ≡ w)
    × (w.content ≡ blank.content)
start-new_example =
    start-new disk-IsMemory (λ value. some 1024) (λ w. ok 70000) args 70000 1024 blank
      (Asks.given refl) (inr (inl refl)) fine_device refl
      (rw (length-replicate {0} {A = ℕ} 70000 0) (omega arith)) (λ p least most. unsigned p)
  where
    fine_device : IsDevice 70000 1024
    fine_device = record {
      least_block = omega arith;
      most_block = omega arith;
      large = omega arith;
      small = omega arith;
    }
