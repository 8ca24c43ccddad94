-- ===== src/Structs.antt =====
-- src/structs/mod.rs: the records that the filesystem keeps on its device and in memory.
-- `Packed` has the bytes of the two `#[repr(C, packed)]` structures, `Attrs` what FUSE is told of an
-- inode.
pub mod Packed
pub mod Size
pub mod Attrs
use ftn_tananfs.Base.{ℕ, List}

abbrev pub data_per_inode : ℕ
data_per_inode = 4096

abbrev pub magic_signature : ℕ
magic_signature = 0x2153466E616E6154

-- `u64::MAX`
abbrev pub null_block : ℕ
null_block = 0xffff_ffff_ffff_ffff

abbrev pub default_block_size : ℕ
default_block_size = 4096

-- `size_of::<Superblock>()` and `size_of::<Inode>()`
abbrev pub superblock_size : ℕ
superblock_size = 1024

abbrev pub inode_size : ℕ
inode_size = 128

pub record Superblock : Type 0 where
  pub inode_count : ℕ
  pub inodes_free : ℕ
  pub block_count : ℕ
  pub blocks_free : ℕ
  pub block_size : ℕ
  pub padding_1 : List ℕ
  pub magic : ℕ
  pub padding_2 : List ℕ

-- `[u64; METADATA_IN_INODE]`, an element to a field
pub record Metadata : Type 0 where
  pub m0 : ℕ
  pub m1 : ℕ
  pub m2 : ℕ
  pub m3 : ℕ
  pub m4 : ℕ

-- `file_type` is the byte that stands for a `fuser::FileType`.
pub record Inode : Type 0 where
  pub index : ℕ
  pub mode : ℕ
  pub file_type : ℕ
  pub size : ℕ
  pub uid : ℕ
  pub gid : ℕ
  pub atime : ℕ
  pub ctime : ℕ
  pub mtime : ℕ
  pub dtime : ℕ
  pub block_count : ℕ
  pub metadata : Metadata
  pub padding_1 : List ℕ
  pub first_block : ℕ
  pub last_block : ℕ

-- `bytes` is the source's field `data`.
pub record Block : Type 0 where
  pub index : ℕ
  pub bytes : List ℕ

pub record Bitmap : Type 0 where
  pub bitfield : List ℕ
  pub count : ℕ
  pub position : ℕ
