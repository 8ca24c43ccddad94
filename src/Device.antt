-- ===== src/Device.antt =====
-- The block device (`trait BlockDevice`: `Seek`, `Read`, `Write` of std) and what else the
-- filesystem asks of its host, on a state `W` of the model's user; and src/structs/superblock.rs,
-- bitmap.rs, inode.rs and block.rs where they load a structure from the device and flush it.
pub mod Structures
pub mod Holds
pub mod Memory
pub mod Images
use ftn_tananfs.Base.{ℕ, List}
use ftn_tananfs.Outcome.{ok}
use ftn_tananfs.Outcome.Action.{Action}
use ftn_tananfs.Cache.{LruLine}

-- `seek` is to `SeekFrom::Start`; `read_exact` takes the length of the buffer to fill. An
-- `std::io::Error` is an error of these calls already converted to the program's. `now` is
-- `Instant::now()` in milliseconds, `unix_time` the seconds of `SystemTime::now()` since
-- `UNIX_EPOCH` (0 before it), and `into_sorted_vec` is that of `BinaryHeap<LruLine>`.
-- `regular_file` and `directory` are the bytes of `fuser::FileType::RegularFile` and `Directory`.
pub record Device (W : Type 0) : Type 0 where
  pub seek : ℕ → Action W (Unit {0})
  pub read_exact : ℕ → Action W (List ℕ)
  pub write_all : List ℕ → Action W (Unit {0})
  pub now : W → ℕ × W
  pub unix_time : W → ℕ × W
  pub into_sorted_vec : List LruLine → List LruLine
  pub regular_file : ℕ
  pub directory : ℕ

-- A reading of the clock, which does not fail
abbrev pub clock : {W : Type 0} → Device W → Action W ℕ
clock device w = let (now, w') = device.now w in (ok now, w')
