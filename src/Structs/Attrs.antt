-- ===== src/Structs/Attrs.antt =====
-- `Inode::attrs` of src/structs/inode.rs: the attributes that FUSE is given (`fuser::FileAttr`). A
-- time stands for its seconds since `UNIX_EPOCH`, which a `SystemTime` can hold.
use ftn_tananfs.Base.{ℕ}
use ftn_tananfs.Structs.{Superblock, Inode}

pub record FileAttr : Type 0 where
  pub ino : ℕ
  pub size : ℕ
  pub blocks : ℕ
  pub atime : ℕ
  pub mtime : ℕ
  pub ctime : ℕ
  pub crtime : ℕ
  pub kind : ℕ
  pub perm : ℕ
  pub nlink : ℕ
  pub uid : ℕ
  pub gid : ℕ
  pub rdev : ℕ
  pub blksize : ℕ
  pub flags : ℕ

unfoldable pub attrs : Inode → Superblock → FileAttr
attrs inode superblock = record {
  ino = inode.index;
  size = inode.size;
  blocks = inode.block_count;
  atime = inode.atime;
  mtime = inode.mtime;
  ctime = inode.ctime;
  crtime = inode.ctime;
  kind = inode.file_type;
  perm = inode.mode;
  nlink = 0;
  uid = inode.uid;
  gid = inode.gid;
  rdev = 0;
  blksize = superblock.block_size;
  flags = 0;
}
