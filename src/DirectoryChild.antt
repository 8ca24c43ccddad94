-- ===== src/DirectoryChild.antt =====
-- src/filetypes/directory_child.rs: an entry of a directory, and its bytes in the directory's
-- file. A name is kept as its UTF-8 bytes.
pub mod Image
use ftn_tananfs.Base.{
  ℕ, ◌+◌, ◌%◌, ◌^◌, ltb, leb, ◌==◌, if◌then◌else◌, Bool, true, false, ◌||◌, List, [], ◌∷◌, ◌++◌,
  length, list_eq,
}
use ftn_tananfs.Error.{Error}
use ftn_tananfs.Outcome.{Outcome, ok, err, fail_if, ◌>>=◌, ◌>>◌}
use ftn_tananfs.Word.Bytes.{be_bytes, from_be}
use ftn_tananfs.Word.Utf8.{is_utf8}
use ftn_tananfs.Block.{copy_into, slice}

pub record DirectoryChild : Type 0 where
  pub inode : ℕ
  pub name : List ℕ

abbrev pub bytes_in_u64 : ℕ
bytes_in_u64 = 8

abbrev pub bytes_in_u16 : ℕ
bytes_in_u16 = 2

unfoldable pub from_bytes : List ℕ → Outcome DirectoryChild
from_bytes bytes = do
  fail_if (ltb (length bytes) (bytes_in_u64 + bytes_in_u16)) Error.insufficient_bytes
  inode_raw ← slice 0 bytes_in_u64 bytes
  length_raw ← slice bytes_in_u64 (bytes_in_u64 + bytes_in_u16) bytes
  let inode = from_be inode_raw
  let name_length = from_be length_raw
  fail_if (ltb (length bytes) (bytes_in_u64 + bytes_in_u16 + name_length)) Error.insufficient_bytes
  name ← slice (bytes_in_u64 + bytes_in_u16) (bytes_in_u64 + bytes_in_u16 + name_length) bytes
  if is_utf8 name then ok (record { inode = inode; name = name }) else err Error.utf8

-- The three parts are copied over the whole of a buffer of zeros, so it is their concatenation.
-- The length of the name is cut to 16 bits.
unfoldable pub as_bytes : DirectoryChild → List ℕ
as_bytes c =
    be_bytes bytes_in_u64 c.inode ++ (be_bytes bytes_in_u16 (length c.name % 2 ^ 16) ++ c.name)

-- `PartialEq`: the same inode or the same name
unfoldable pub eq : DirectoryChild → DirectoryChild → Bool
eq a b = a.inode == b.inode || list_eq a.name b.name
