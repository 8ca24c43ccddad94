-- ===== src/Directory/Names.antt =====
-- The children of a directory as a finite map from names to inodes.
use ftn_tananfs.Base.{
  ℕ, ◌≡◌, ◌≢◌, refl, sym, ◌∙◌, Bool, true, false, Bool-cases, inl, inr, if◌then◌else◌, List, [],
  ◌∷◌, ◌++◌, list_eq, list_eq_iff, Option, none, some,
}
use ftn_tananfs.Directory.New.{IsNew, IsKnown, IsNew-contains, IsKnown-contains}
use ftn_tananfs.Error.{Error}
use ftn_tananfs.Outcome.{Outcome, ok, err}
use ftn_tananfs.DirectoryChild.{DirectoryChild}
use ftn_tananfs.Directory.{
  Directory, DirectoryChildIdentifier, find, contains, get_child_inode, add_child,
}

-- The inode that a name stands for
abbrev named : Option DirectoryChild → Outcome ℕ
named none = err Error.not_found
named (some child) = ok child.inode

abbrev pub of_name : List ℕ → List DirectoryChild → Outcome ℕ
of_name name cs = named (find (λ c. list_eq c.name name) cs)

abbrev pub inode_of : List ℕ → Directory → Outcome ℕ
inode_of name dir = get_child_inode (DirectoryChildIdentifier.by_name name) dir

pub inode_of_lem : (name : List ℕ) (dir : Directory) → inode_of name dir ≡ of_name name dir.children
unfolding get_child_inode
inode_of_lem name dir = elim (find (λ c. list_eq c.name name) dir.children) [
  | none ↦ refl
  | some child ↦ refl
]

pub differs : (a b x : List ℕ) → list_eq a b ≡ false → list_eq a x ≡ true → list_eq b x ≡ false
differs a b x h same = elim (Bool-cases (list_eq b x)) [
  | inl e ↦
      let both : a ≡ b = (list_eq_iff a x).0 same ∙ sym ((list_eq_iff b x).0 e) in
      let yes = (list_eq_iff a b).1 both in cc
  | inr e ↦ e
]

pub list_eq_ne : (a b : List ℕ) → a ≢ b → list_eq a b ≡ false
list_eq_ne a b other = elim (Bool-cases (list_eq a b)) [
  | inl e ↦ elim (other ((list_eq_iff a b).0 e)) [ ]
  | inr e ↦ e
]

named_cons :
    (found : Bool) (c : DirectoryChild) (rest : Option DirectoryChild)
    → named (elim found [ true ↦ some c | false ↦ rest ])
      ≡ (if found then ok c.inode else named rest)
named_cons true c rest = refl
named_cons false c rest = refl

pub of_name-cons :
    (x : List ℕ) (c : DirectoryChild) (cs : List DirectoryChild)
    → of_name x (c ∷ cs) ≡ (if list_eq c.name x then ok c.inode else of_name x cs)
unfolding find
of_name-cons x c cs = named_cons (list_eq c.name x) c (find (λ d. list_eq d.name x) cs)

of_name-append :
    (x name : List ℕ) (inode : ℕ) (cs : List DirectoryChild)
    → IsNew inode name cs
    → of_name x (cs ++ (record { inode = inode; name = name } ∷ []))
      ≡ (if list_eq name x then ok inode else of_name x cs)
of_name-append x name inode [] IsNew.none_left =
    of_name-cons x (record { inode = inode; name = name }) []
of_name-append x name inode (c ∷ cs) (IsNew.one_more inodes names behind) =
    let new : DirectoryChild = record { inode = inode; name = name } in
    of_name-cons x c (cs ++ (new ∷ [])) ∙ elim (Bool-cases (list_eq c.name x)) [
      | inl e ↦
          rw (of_name-cons x c cs, e, differs c.name name x (list_eq_ne c.name name names) e) refl
      | inr e ↦ rw (of_name-cons x c cs, e) (of_name-append x name inode cs behind)
    ]

-- How `add_child` can end: with the new child behind the others and its name in the map, or refused
-- with the children as they are.
pub data AddedChild (name : List ℕ) (inode : ℕ) (dir : Directory)
    : Outcome (Unit {0}) × Directory → Type 0 where
  added :
      {dir' : Directory}
      → IsNew inode name dir.children
      → dir' ≡ record dir {
        modified = true;
        children = dir.children ++ (record { inode = inode; name = name } ∷ []);
      }
      → inode_of name dir' ≡ ok inode
      → ((x : List ℕ) → x ≢ name → inode_of x dir' ≡ inode_of x dir)
      → AddedChild name inode dir (ok tt, dir')
  refused :
      IsKnown inode name dir.children
      → AddedChild name inode dir
          (err Error.name_or_inode_duplicate, record dir { modified = true })

-- `add_child` of an inode that no child has, under a name that no child has, succeeds: the child is put
-- behind the others, the name stands for the inode then, and every other name for what it did before.
-- Where some child has the inode or the name, it fails with `NameOrInodeDuplicate`, and the children
-- stay as they are. Either way the directory counts as modified.
pub inode_of-add_child :
    (name : List ℕ) (inode : ℕ) (dir : Directory)
    → AddedChild name inode dir (add_child name inode dir)
unfolding add_child
inode_of-add_child name inode dir =
    let child : DirectoryChild = record { inode = inode; name = name } in
    elim (Bool-cases (contains child dir.children)) [
      | inl known ↦ rw known (AddedChild.refused (IsKnown-contains child dir.children known))
      | inr new ↦
          let fresh = IsNew-contains child dir.children new in
          let dir' : Directory = record dir {
            modified = true;
            children = dir.children ++ (child ∷ []);
          } in
          let lookups =
            λ (x : List ℕ). inode_of_lem x dir' ∙ of_name-append x name inode dir.children fresh in
          rw new (
            AddedChild.added fresh refl (lookups name ∙ rw ((list_eq_iff name name).1 refl) refl)
              (λ x other.
                lookups x ∙ rw (list_eq_ne name x (λ e. other (sym e))) (sym (inode_of_lem x dir))))
    ]
