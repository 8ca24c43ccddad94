-- ===== src/Directory/New.antt =====
-- Children that have neither the inode nor the name of a given one, whatever `contains` says of them.
use ftn_tananfs.Base.{
  ℕ, ◌≡◌, ◌≢◌, refl, arith, Bool, true, false, inl, inr, ◌⊎◌, ◌||◌, ◌==◌, ==→eq, eq→==, List, [],
  ◌∷◌, list_eq, list_eq_iff,
}
use ftn_tananfs.DirectoryChild.{DirectoryChild, eq}
use ftn_tananfs.Directory.{contains}

-- No child has the inode, and none has the name.
pub data IsNew (inode : ℕ) (name : List ℕ) : List DirectoryChild → Type 0 where
  none_left : IsNew inode name []
  one_more :
      {c : DirectoryChild} {cs : List DirectoryChild}
      → c.inode ≢ inode
      → c.name ≢ name
      → IsNew inode name cs
      → IsNew inode name (c ∷ cs)

-- Some child has the inode, or some child has the name.
pub data IsKnown (inode : ℕ) (name : List ℕ) : List DirectoryChild → Type 0 where
  at_first :
      {c : DirectoryChild} {cs : List DirectoryChild}
      → (c.inode ≡ inode) ⊎ (c.name ≡ name)
      → IsKnown inode name (c ∷ cs)
  later :
      {c : DirectoryChild} {cs : List DirectoryChild}
      → IsKnown inode name cs
      → IsKnown inode name (c ∷ cs)

pub either : (p q : Bool) → (p || q) ≡ false → (p ≡ false) × (q ≡ false)
either p q h = ground arith

one_of : (p q : Bool) → (p || q) ≡ true → (p ≡ true) ⊎ (q ≡ true)
one_of true q h = inl refl
one_of false q h = inr h

eq-false : (a b : DirectoryChild) → eq a b ≡ false → (a.inode ≢ b.inode) × (a.name ≢ b.name)
unfolding eq
eq-false a b h =
    let (inodes, names) = either (a.inode == b.inode) (list_eq a.name b.name) h in
    (
      λ e. let yes = eq→== a.inode b.inode e in cc,
      λ e. let yes = (list_eq_iff a.name b.name).1 e in cc,
    )

eq-true : (a b : DirectoryChild) → eq a b ≡ true → (a.inode ≡ b.inode) ⊎ (a.name ≡ b.name)
unfolding eq
eq-true a b h = elim (one_of (a.inode == b.inode) (list_eq a.name b.name) h) [
  | inl inodes ↦ inl (==→eq a.inode b.inode inodes)
  | inr names ↦ inr ((list_eq_iff a.name b.name).0 names)
]

-- `contains` finds a child if and only if the inode or the name is known.
pub IsNew-contains :
    (c : DirectoryChild) (cs : List DirectoryChild)
    → contains c cs ≡ false
    → IsNew c.inode c.name cs
unfolding contains
IsNew-contains c [] h = IsNew.none_left
IsNew-contains c (d ∷ ds) h =
    let (here, behind) = either (eq d c) (contains c ds) h in
    let (inodes, names) = eq-false d c here in
    IsNew.one_more inodes names (IsNew-contains c ds behind)

pub IsKnown-contains :
    (c : DirectoryChild) (cs : List DirectoryChild)
    → contains c cs ≡ true
    → IsKnown c.inode c.name cs
unfolding contains
IsKnown-contains c [] h = cc
IsKnown-contains c (d ∷ ds) h = elim (one_of (eq d c) (contains c ds) h) [
  | inl here ↦ IsKnown.at_first (eq-true d c here)
  | inr behind ↦ IsKnown.later (IsKnown-contains c ds behind)
]
