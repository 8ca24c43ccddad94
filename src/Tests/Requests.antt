-- ===== src/Tests/Requests.antt =====
-- Requests to a small filesystem, whose device answers zeros.
use ftn_tananfs.Base.{ℕ, ◌≡◌, refl, arith, false, none, some, List, [], ◌∷◌, ◌++◌, replicate}
use ftn_tananfs.Error.{Error}
use ftn_tananfs.Outcome.{ok, err}
use ftn_tananfs.Structs.{Inode, null_block}
use ftn_tananfs.Structs.Attrs.{attrs}
use ftn_tananfs.Bitmap.{get as get_bit}
use ftn_tananfs.Cache.{get_line, insert}
use ftn_tananfs.Filesystem.{Filesystem}
use ftn_tananfs.Filesystem.Access.{load_inode, cached_inode, found_inode}
use ftn_tananfs.Filesystem.Accounts.{IsAccounted}
use ftn_tananfs.Filesystem.Accounts.Invariant.{layout}
use ftn_tananfs.Filesystem.Resident.{IsResident}
use ftn_tananfs.Word.Int.{pos}
use ftn_tananfs.DirectoryChild.{DirectoryChild}
use ftn_tananfs.Directory.{Directory, retain, add_child}
use ftn_tananfs.Directory.New.{IsNew}
use ftn_tananfs.Directory.Names.{AddedChild, inode_of, inode_of-add_child}
use ftn_tananfs.Directory.Distinct.{IsDistinct, add_child-IsDistinct, inode_of-retain}
use ftn_tananfs.RawFile.{RawByteFile, Opened}
use ftn_tananfs.RawFile as RawFile
use ftn_tananfs.RawFile.Extend.{extend_rounds}
use ftn_tananfs.RawFile.Fuel.{extend_rounds_fuel}
use ftn_tananfs.Fuse.{Reply}
use ftn_tananfs.Fuse.Attributes.{getattr, setattr}
use ftn_tananfs.Fuse.Getattr.{getattr-setattr}
use ftn_tananfs.Fuse.Entries.{list_children}
use ftn_tananfs.Fuse.Listing.{roomy, listing, list_children-listing}
use ftn_tananfs.Fuse.Requests.{Request, handle, Reach, Reach-IsAccounted, layout-Reach}
use ftn_tananfs.Tests.Allocation.{zeros, fs, fs-IsAccounted}

-- "a"
abbrev name : List ℕ
name = 0x61 ∷ []

abbrev request : Request
request = Request.mkdir 1 name 420

Reach-IsAccounted_example : IsAccounted 0 (handle zeros request fs).1
Reach-IsAccounted_example =
    Reach-IsAccounted zeros 0 fs (handle zeros request fs).1 (Reach.served request fs Reach.here)
      fs-IsAccounted

layout-Reach_example : layout (handle zeros request fs).1 ≡ layout fs
layout-Reach_example =
    layout-Reach zeros fs (handle zeros request fs).1 (Reach.served request fs Reach.here)

abbrev pub root : Inode
root = record {
  index = 1;
  mode = 0;
  file_type = 3;
  size = 0;
  uid = 0;
  gid = 0;
  atime = 7;
  ctime = 7;
  mtime = 7;
  dtime = null_block;
  block_count = 1;
  metadata = record { m0 = 1; m1 = 0; m2 = 4; m3 = null_block; m4 = null_block };
  padding_1 = replicate 5 0;
  first_block = null_block;
  last_block = null_block;
}

abbrev rooted : Filesystem ℕ
rooted = record fs {
  store = record fs.store {
    cache = record fs.store.cache {
      inodes = (1, record { value = root; modified = false; atime = 0 }) ∷ [];
    };
  };
}

getattr-setattr_example :
    (getattr zeros 1 (setattr zeros 1 (some 0x101a4) none (some 9) rooted).1).0
    ≡ ok (
        Reply.attr (record (attrs root (load_inode zeros 1 rooted).1.superblock) {
          perm = 0x1a4;
          uid = 0;
          gid = 9;
        }))
unfolding load_inode cached_inode found_inode get_line insert get_bit
getattr-setattr_example =
    getattr-setattr zeros rooted (load_inode zeros 1 rooted).1 1 (some 0x101a4) none (some 9) root
      refl refl refl (omega arith)

abbrev child : DirectoryChild
child = record { inode = 3; name = name }

abbrev dir : Directory
dir = record {
  inode = root;
  file = RawFile.load 512 root;
  name = 0x72 ∷ [];
  children = child ∷ [];
  modified = false;
  removed = false;
}

inode_of-add_child_example : AddedChild (0x62 ∷ []) 4 dir (add_child (0x62 ∷ []) 4 dir)
inode_of-add_child_example = inode_of-add_child (0x62 ∷ []) 4 dir

dir-IsDistinct : IsDistinct dir.children
dir-IsDistinct = IsDistinct.one_more IsNew.none_left IsDistinct.none_left

add_child-IsDistinct_example : IsDistinct (add_child (0x62 ∷ []) 4 dir).1.children
add_child-IsDistinct_example = add_child-IsDistinct (0x62 ∷ []) 4 dir dir-IsDistinct

inode_of-retain_example :
    let dir' : Directory = record dir { children = retain 3 dir.children } in
    IsDistinct dir'.children
    × ((x : List ℕ) → inode_of x dir ≡ ok 3 → inode_of x dir' ≡ err Error.not_found)
    × ((x : List ℕ) → (inode_of x dir ≡ ok 3 → ⊥) → inode_of x dir' ≡ inode_of x dir)
inode_of-retain_example = inode_of-retain 3 dir dir-IsDistinct

root-IsResident : IsResident root rooted
unfolding get_bit
root-IsResident = record { used = refl; held = refl }

list_children-listing_example :
    (list_children zeros roomy 1 (pos 0) 0 (child ∷ []) [] rooted).0
    ≡ ok ([] ++ listing root 0 0 (child ∷ []))
list_children-listing_example =
    list_children-listing zeros root 0 0 (child ∷ []) [] rooted root-IsResident (omega arith)

abbrev opened : Opened ℕ
opened = record { object = RawFile.new 512; fs = fs }

extend_rounds_fuel_example :
    extend_rounds zeros 600 8 600 504 opened ≡ extend_rounds zeros 592 8 600 504 opened
extend_rounds_fuel_example =
    extend_rounds_fuel zeros 600 592 8 600 504 opened (omega arith) (omega arith) (omega arith)
