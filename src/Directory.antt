-- ===== src/Directory.antt =====
-- src/filetypes/directory.rs: a directory, an inode with a raw file of its name and its children.
-- A method's state is the directory and the filesystem that it shares. Names are UTF-8 bytes.
pub mod Access
pub mod Children
pub mod Create
pub mod Invariant
pub mod New
pub mod Names
pub mod Distinct
use ftn_tananfs.Base.{
  ℕ, ◌==◌, ◌||◌, if◌then◌else◌, Bool, true, false, not, List, [], ◌∷◌, ◌++◌, list_eq, Option, none,
  some,
}
use ftn_tananfs.Error.{Error}
use ftn_tananfs.Outcome.{Outcome, ok, err}
use ftn_tananfs.Outcome.Action.{Action, lift, gets, gets_ok, modify, raise_if, ◌>>=◌, ◌>>◌}
use ftn_tananfs.Structs.{Inode}
use ftn_tananfs.DirectoryChild.{DirectoryChild, eq}
use ftn_tananfs.RawFile.{RawByteFile}

pub record Directory : Type 0 where
  pub inode : Inode
  pub file : RawByteFile
  pub name : List ℕ
  pub children : List DirectoryChild
  pub modified : Bool
  pub removed : Bool

pub data DirectoryChildIdentifier : Type 0 where
  by_name : List ℕ → DirectoryChildIdentifier
  by_inode : ℕ → DirectoryChildIdentifier

-- `iter().find`
unfoldable pub find : (DirectoryChild → Bool) → List DirectoryChild → Option DirectoryChild
find test [] = none
find test (c ∷ cs) = elim (test c) [ true ↦ some c | false ↦ find test cs ]

-- `contains`, which compares with `PartialEq`
unfoldable pub contains : DirectoryChild → List DirectoryChild → Bool
contains c [] = false
contains c (d ∷ ds) = eq d c || contains c ds

-- `retain(|c| c.inode != child)`
unfoldable pub retain : ℕ → List DirectoryChild → List DirectoryChild
retain child [] = []
retain child (c ∷ cs) = let rest = retain child cs in if c.inode == child then rest else c ∷ rest

-- The first child with the inode has its name changed; `none` where there is no such child.
unfoldable pub rename_child : ℕ → List ℕ → List DirectoryChild → Option (List DirectoryChild)
rename_child child new_name [] = none
rename_child child new_name (c ∷ cs) = elim (c.inode == child) [
  | true ↦ some (record c { name = new_name } ∷ cs)
  | false ↦ elim (rename_child child new_name cs) [ none ↦ none | some ds ↦ some (c ∷ ds) ]
]

unfoldable pub get_child_inode : DirectoryChildIdentifier → Directory → Outcome ℕ
get_child_inode (DirectoryChildIdentifier.by_name name) dir =
    elim (find (λ c. list_eq c.name name) dir.children) [
      | none ↦ err Error.not_found
      | some child ↦ ok child.inode
    ]
get_child_inode (DirectoryChildIdentifier.by_inode index) dir = ok index

unfoldable pub add_child : List ℕ → ℕ → Action Directory (Unit {0})
add_child name inode = do
  modify (λ dir. record dir { modified = true })
  let child : DirectoryChild = record { inode = inode; name = name }
  known ← gets (λ dir. contains child dir.children)
  raise_if known Error.name_or_inode_duplicate
  modify (λ dir. record dir { children = dir.children ++ (child ∷ []) })
