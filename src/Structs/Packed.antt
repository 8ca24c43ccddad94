-- ===== src/Structs/Packed.antt =====
-- The memory image of `Superblock` and `Inode`, which `load` and `flush` copy byte for byte:
-- fields in order, little-endian, with no gap but the named padding.
use ftn_tananfs.Base.{
  ℕ, ◌+◌, ◌<◌, ◌^◌, ◌≡◌, ap, ◌∙◌, arith, List, ◌++◌, length, take, drop, drop-append_add,
  take-append_exact, take_all, length-append,
}
use ftn_tananfs.Word.Bytes.{le_bytes, from_le, from_le-le_bytes}
use ftn_tananfs.Structs.{Superblock, Inode, Metadata, superblock_size, inode_size}

-- `n` bytes from `offset` on, and the integer that they stand for
abbrev pub slice : ℕ → ℕ → List ℕ → List ℕ
slice offset n bytes = take n (drop offset bytes)

abbrev pub field : ℕ → ℕ → List ℕ → ℕ
field offset n bytes = from_le (slice offset n bytes)

-- `core::slice::from_raw_parts(self as *const Self as *const u8, size_of::<Self>())`
pub superblock_bytes : Superblock → List ℕ
superblock_bytes s =
    le_bytes 8 s.inode_count
    ++ (le_bytes 8 s.inodes_free
        ++ (le_bytes 8 s.block_count
            ++ (le_bytes 8 s.blocks_free
                ++ (le_bytes 4 s.block_size
                    ++ (s.padding_1 ++ (le_bytes 8 s.magic ++ s.padding_2))))))

-- `*(superblock_raw.as_ptr() as *const Self)`
pub superblock_of_bytes : List ℕ → Superblock
superblock_of_bytes bytes = record {
  inode_count = field 0 8 bytes;
  inodes_free = field 8 8 bytes;
  block_count = field 16 8 bytes;
  blocks_free = field 24 8 bytes;
  block_size = field 32 4 bytes;
  padding_1 = slice 36 20 bytes;
  magic = field 56 8 bytes;
  padding_2 = slice 64 960 bytes;
}

abbrev pub metadata_bytes : Metadata → List ℕ → List ℕ
metadata_bytes m rest =
    le_bytes 8 m.m0
    ++ (le_bytes 8 m.m1 ++ (le_bytes 8 m.m2 ++ (le_bytes 8 m.m3 ++ (le_bytes 8 m.m4 ++ rest))))

pub inode_bytes : Inode → List ℕ
inode_bytes i =
    le_bytes 8 i.index
    ++ (le_bytes 2 i.mode
        ++ (le_bytes 1 i.file_type
            ++ (le_bytes 8 i.size
                ++ (le_bytes 4 i.uid
                    ++ (le_bytes 4 i.gid
                        ++ (le_bytes 8 i.atime
                            ++ (le_bytes 8 i.ctime
                                ++ (le_bytes 8 i.mtime
                                    ++ (le_bytes 8 i.dtime
                                        ++ (le_bytes 8 i.block_count
                                            ++ metadata_bytes i.metadata (
                                                i.padding_1
                                                ++ (le_bytes 8 i.first_block
                                                    ++ le_bytes 8 i.last_block))))))))))))

pub inode_of_bytes : List ℕ → Inode
inode_of_bytes bytes = record {
  index = field 0 8 bytes;
  mode = field 8 2 bytes;
  file_type = field 10 1 bytes;
  size = field 11 8 bytes;
  uid = field 19 4 bytes;
  gid = field 23 4 bytes;
  atime = field 27 8 bytes;
  ctime = field 35 8 bytes;
  mtime = field 43 8 bytes;
  dtime = field 51 8 bytes;
  block_count = field 59 8 bytes;
  metadata = record {
    m0 = field 67 8 bytes;
    m1 = field 75 8 bytes;
    m2 = field 83 8 bytes;
    m3 = field 91 8 bytes;
    m4 = field 99 8 bytes;
  };
  padding_1 = slice 107 5 bytes;
  first_block = field 112 8 bytes;
  last_block = field 120 8 bytes;
}

-- Every field holds a value of its machine type.
pub record SuperblockFits (s : Superblock) : Type 0 where
  pub inode_count : s.inode_count < 256 ^ 8
  pub inodes_free : s.inodes_free < 256 ^ 8
  pub block_count : s.block_count < 256 ^ 8
  pub blocks_free : s.blocks_free < 256 ^ 8
  pub block_size : s.block_size < 256 ^ 4
  pub padding_1 : length s.padding_1 ≡ 20
  pub magic : s.magic < 256 ^ 8
  pub padding_2 : length s.padding_2 ≡ 960

pub record InodeFits (i : Inode) : Type 0 where
  pub index : i.index < 256 ^ 8
  pub mode : i.mode < 256 ^ 2
  pub file_type : i.file_type < 256 ^ 1
  pub size : i.size < 256 ^ 8
  pub uid : i.uid < 256 ^ 4
  pub gid : i.gid < 256 ^ 4
  pub atime : i.atime < 256 ^ 8
  pub ctime : i.ctime < 256 ^ 8
  pub mtime : i.mtime < 256 ^ 8
  pub dtime : i.dtime < 256 ^ 8
  pub block_count : i.block_count < 256 ^ 8
  pub m0 : i.metadata.m0 < 256 ^ 8
  pub m1 : i.metadata.m1 < 256 ^ 8
  pub m2 : i.metadata.m2 < 256 ^ 8
  pub m3 : i.metadata.m3 < 256 ^ 8
  pub m4 : i.metadata.m4 < 256 ^ 8
  pub padding_1 : length i.padding_1 ≡ 5
  pub first_block : i.first_block < 256 ^ 8
  pub last_block : i.last_block < 256 ^ 8

-- Behind a padding of `n` bytes stands what was written there.
field_behind :
    (n m : ℕ) (pad rest : List ℕ) → length pad ≡ n → field (n + m) 8 (pad ++ rest) ≡ field m 8 rest
field_behind n m pad rest h = ap (λ t. from_le (take 8 t)) (drop-append_add n m pad rest h)

-- A superblock whose fields fit their machine types is read back from its memory image as it was.
pub superblock_of_bytes-superblock_bytes :
    (s : Superblock) → SuperblockFits s → superblock_of_bytes (superblock_bytes s) ≡ s
unfolding superblock_bytes superblock_of_bytes
superblock_of_bytes-superblock_bytes s fits = λ i. record {
  inode_count = from_le-le_bytes 8 s.inode_count fits.inode_count i;
  inodes_free = from_le-le_bytes 8 s.inodes_free fits.inodes_free i;
  block_count = from_le-le_bytes 8 s.block_count fits.block_count i;
  blocks_free = from_le-le_bytes 8 s.blocks_free fits.blocks_free i;
  block_size = from_le-le_bytes 4 s.block_size fits.block_size i;
  padding_1 = take-append_exact 20 s.padding_1 behind fits.padding_1 i;
  magic =
      (field_behind 20 0 s.padding_1 behind fits.padding_1 ∙ from_le-le_bytes 8 s.magic fits.magic)
        i;
  padding_2 =
      (ap (take 960) (drop-append_add 20 8 s.padding_1 behind fits.padding_1)
          ∙ take_all 960 s.padding_2 (omega arith))
        i;
}
  where
    behind : List ℕ
    behind = le_bytes 8 s.magic ++ s.padding_2

-- Where `detect_existing` looks for the signature
pub magic_at : (s : Superblock) → SuperblockFits s → field 56 8 (superblock_bytes s) ≡ s.magic
unfolding superblock_of_bytes
magic_at s fits = ap (λ (t : Superblock). t.magic) (superblock_of_bytes-superblock_bytes s fits)

-- An inode whose fields fit their machine types is read back from its memory image as it was.
pub inode_of_bytes-inode_bytes : (n : Inode) → InodeFits n → inode_of_bytes (inode_bytes n) ≡ n
unfolding inode_bytes inode_of_bytes
inode_of_bytes-inode_bytes n fits = λ i. record {
  index = from_le-le_bytes 8 n.index fits.index i;
  mode = from_le-le_bytes 2 n.mode fits.mode i;
  file_type = from_le-le_bytes 1 n.file_type fits.file_type i;
  size = from_le-le_bytes 8 n.size fits.size i;
  uid = from_le-le_bytes 4 n.uid fits.uid i;
  gid = from_le-le_bytes 4 n.gid fits.gid i;
  atime = from_le-le_bytes 8 n.atime fits.atime i;
  ctime = from_le-le_bytes 8 n.ctime fits.ctime i;
  mtime = from_le-le_bytes 8 n.mtime fits.mtime i;
  dtime = from_le-le_bytes 8 n.dtime fits.dtime i;
  block_count = from_le-le_bytes 8 n.block_count fits.block_count i;
  metadata = record {
    m0 = from_le-le_bytes 8 n.metadata.m0 fits.m0 i;
    m1 = from_le-le_bytes 8 n.metadata.m1 fits.m1 i;
    m2 = from_le-le_bytes 8 n.metadata.m2 fits.m2 i;
    m3 = from_le-le_bytes 8 n.metadata.m3 fits.m3 i;
    m4 = from_le-le_bytes 8 n.metadata.m4 fits.m4 i;
  };
  padding_1 = take-append_exact 5 n.padding_1 behind fits.padding_1 i;
  first_block =
      (field_behind 5 0 n.padding_1 behind fits.padding_1
          ∙ from_le-le_bytes 8 n.first_block fits.first_block)
        i;
  last_block =
      (field_behind 5 8 n.padding_1 behind fits.padding_1
          ∙ from_le-le_bytes 8 n.last_block fits.last_block)
        i;
}
  where
    behind : List ℕ
    behind = le_bytes 8 n.first_block ++ le_bytes 8 n.last_block

-- The images have the sizes that the layout of the device counts with.
pub length-superblock_bytes :
    (s : Superblock) → SuperblockFits s → length (superblock_bytes s) ≡ superblock_size
unfolding superblock_bytes
length-superblock_bytes s fits =
    omega (arith, length-append {0} s.padding_1 (le_bytes 8 s.magic ++ s.padding_2))

pub length-inode_bytes : (n : Inode) → InodeFits n → length (inode_bytes n) ≡ inode_size
unfolding inode_bytes
length-inode_bytes n fits =
    omega
      (arith, length-append {0} n.padding_1 (le_bytes 8 n.first_block ++ le_bytes 8 n.last_block))
