-- ===== src/Fuse/Listing.antt =====
-- What `readdir` lists.
use ftn_tananfs.Base.{
  ℕ, ◌+◌, ◌<◌, ◌^◌, ◌≡◌, sym, ap, ◌∙◌, arith, ltb, lt→ltb, true, false, List, [], ◌∷◌, ◌++◌, length,
}
use mathlib.Core.List.{append-nil, append_assoc}
use ftn_tananfs.Outcome.{ok, panic}
use ftn_tananfs.Word.Int.{pos, as_i64, ◌+i◌}
use ftn_tananfs.Device.{Device}
use ftn_tananfs.DirectoryChild.{DirectoryChild}
use ftn_tananfs.Filesystem.{Filesystem}
use ftn_tananfs.Structs.{Inode}
use ftn_tananfs.Filesystem.Resident.{IsResident, load-IsResident}
use ftn_tananfs.Fuse.{DirectoryEntry}
use ftn_tananfs.Fuse.Entries.{Add, list_children}

-- A buffer that is never full
abbrev pub roomy : Add
roomy entries entry = (entries ++ (entry ∷ []), false)

+i-ok : (a b : ℕ) → ltb (a + b) (2 ^ 63) ≡ true → (pos a +i pos b) ≡ ok (pos (a + b))
+i-ok a b h = ground arith

+i-over : (a b : ℕ) → ltb (a + b) (2 ^ 63) ≡ false → (pos a +i pos b) ≡ panic
+i-over a b h = ground arith

as_i64-small : (a : ℕ) → a < 2 ^ 63 → as_i64 a ≡ pos a
as_i64-small a h = ground arith

-- The entries that are added for the children from the one with the given index on: each as its name
-- with the inode number and the type of the directory
abbrev pub listing : Inode → ℕ → ℕ → List DirectoryChild → List DirectoryEntry
listing dir offset index [] = []
listing dir offset index (c ∷ cs) =
    record {
      ino = dir.index;
      offset = pos (offset + index + 3);
      kind = dir.file_type;
      name = c.name;
    }
    ∷ listing dir offset (index + 1) cs

module _ {W : Type 0} (device : Device W) where
  -- The loop of `readdir`, with room in the buffer, adds every child once and in order, but with the
  -- inode number and the type of the directory instead of the child's, and with an offset that is 3
  -- more than the child's index: if the inode of the directory is in the cache.
  pub list_children-listing :
      (n : Inode) (offset index : ℕ) (cs : List DirectoryChild) (entries : List DirectoryEntry)
      (fs : Filesystem W)
      → IsResident n fs
      → offset + index + length cs + 3 < 2 ^ 63
      → (list_children device roomy n.index (pos offset) index cs entries fs).0
        ≡ ok (entries ++ listing n offset index cs)
  unfolding list_children
  list_children-listing n offset index [] entries fs r few = ap ok (sym (append-nil entries))
  list_children-listing n offset index (c ∷ cs) entries fs r few =
      let (fs', loaded, r', stays, same, stamp) = load-IsResident device n fs r in
      let sum : (pos offset +i as_i64 index) ≡ ok (pos (offset + index)) =
        ap (λ i. pos offset +i i) (as_i64-small index (omega (arith, few)))
        ∙ +i-ok offset index (lt→ltb _ _ (omega (arith, few))) in
      let sum' : (pos (offset + index) +i pos 3) ≡ ok (pos (offset + index + 3)) =
        +i-ok (offset + index) 3 (lt→ltb _ _ (omega (arith, few))) in
      let entry : DirectoryEntry = record {
        ino = n.index;
        offset = pos (offset + index + 3);
        kind = n.file_type;
        name = c.name;
      } in
      rw (loaded, sum, sum')
        (list_children-listing n offset (index + 1) cs (entries ++ (entry ∷ [])) fs' r'
            (omega (arith, few))
          ∙ ap ok (append_assoc entries (entry ∷ []) (listing n offset (index + 1) cs)))
