-- ===== src/Directory/Distinct.antt =====
-- The names and inodes in a directory are distinct, and a child that is taken out is not found any
-- more.
use ftn_tananfs.Base.{
  ℕ, ◌≡◌, ◌≢◌, refl, sym, ◌∙◌, ap, true, Bool-cases, inl, inr, ◌==◌, ==→eq, eq→==, List, [], ◌∷◌,
  ◌++◌, list_eq,
}
use ftn_tananfs.Error.{Error}
use ftn_tananfs.Outcome.{ok, err}
use ftn_tananfs.DirectoryChild.{DirectoryChild}
use ftn_tananfs.Directory.{Directory, contains, retain, find, add_child}
use ftn_tananfs.Directory.New.{IsNew, IsNew-contains}
use ftn_tananfs.Directory.Names.{of_name, of_name-cons, list_eq_ne, differs, inode_of, inode_of_lem}

-- No two children have one inode, and no two have one name.
pub data IsDistinct : List DirectoryChild → Type 0 where
  none_left : IsDistinct []
  one_more :
      {c : DirectoryChild} {cs : List DirectoryChild}
      → IsNew c.inode c.name cs
      → IsDistinct cs
      → IsDistinct (c ∷ cs)

IsNew-retain :
    (k inode : ℕ) (name : List ℕ) (cs : List DirectoryChild)
    → IsNew inode name cs
    → IsNew inode name (retain k cs)
unfolding retain
IsNew-retain k inode name [] IsNew.none_left = IsNew.none_left
IsNew-retain k inode name (d ∷ ds) (IsNew.one_more inodes names behind) =
    elim (Bool-cases (d.inode == k)) [
      | inl gone ↦ rw gone (IsNew-retain k inode name ds behind)
      | inr stays ↦ rw stays (IsNew.one_more inodes names (IsNew-retain k inode name ds behind))
    ]

retain-IsDistinct : (k : ℕ) (cs : List DirectoryChild) → IsDistinct cs → IsDistinct (retain k cs)
unfolding retain
retain-IsDistinct k [] d = IsDistinct.none_left
retain-IsDistinct k (c ∷ cs) (IsDistinct.one_more new d) = elim (Bool-cases (c.inode == k)) [
  | inl gone ↦ rw gone (retain-IsDistinct k cs d)
  | inr stays ↦
      rw stays
        (IsDistinct.one_more (IsNew-retain k c.inode c.name cs new) (retain-IsDistinct k cs d))
]

IsNew-append :
    (inode : ℕ) (name : List ℕ) (d : DirectoryChild) (cs : List DirectoryChild)
    → IsNew inode name cs
    → d.inode ≢ inode
    → d.name ≢ name
    → IsNew inode name (cs ++ (d ∷ []))
IsNew-append inode name d [] IsNew.none_left inodes names =
    IsNew.one_more inodes names IsNew.none_left
IsNew-append inode name d (b ∷ bs) (IsNew.one_more first second behind) inodes names =
    IsNew.one_more first second (IsNew-append inode name d bs behind inodes names)

append-IsDistinct :
    (c : DirectoryChild) (cs : List DirectoryChild)
    → IsNew c.inode c.name cs
    → IsDistinct cs
    → IsDistinct (cs ++ (c ∷ []))
append-IsDistinct c [] IsNew.none_left d = IsDistinct.one_more IsNew.none_left IsDistinct.none_left
append-IsDistinct c (b ∷ bs) (IsNew.one_more inodes names behind) (IsDistinct.one_more new d) =
    IsDistinct.one_more
      (IsNew-append b.inode b.name c bs new (λ e. inodes (sym e)) (λ e. names (sym e)))
      (append-IsDistinct c bs behind d)

-- Where no two children have one inode or one name, this is so after `add_child` as well, whether it
-- succeeds or not.
pub add_child-IsDistinct :
    (name : List ℕ) (inode : ℕ) (dir : Directory)
    → IsDistinct dir.children
    → IsDistinct (add_child name inode dir).1.children
unfolding add_child
add_child-IsDistinct name inode dir d =
    let child : DirectoryChild = record { inode = inode; name = name } in
    elim (Bool-cases (contains child dir.children)) [
      | inl known ↦ rw known d
      | inr new ↦
          rw new (append-IsDistinct child dir.children (IsNew-contains child dir.children new) d)
    ]

of_name_new :
    (x name : List ℕ) (inode : ℕ) (cs : List DirectoryChild)
    → list_eq name x ≡ true
    → IsNew inode name cs
    → of_name x cs ≡ err Error.not_found
unfolding find
of_name_new x name inode [] same IsNew.none_left = refl
of_name_new x name inode (d ∷ ds) same (IsNew.one_more inodes names behind) =
    let other = differs name d.name x (list_eq_ne name d.name (λ e. names (sym e))) same in
    of_name-cons x d ds ∙ rw other (of_name_new x name inode ds same behind)

ok-injective : {A : Type 0} {a b : A} → ok a ≡ ok b → a ≡ b
ok-injective h = cc

retain_gone :
    (k : ℕ) (x : List ℕ) (cs : List DirectoryChild)
    → IsDistinct cs
    → of_name x cs ≡ ok k
    → of_name x (retain k cs) ≡ err Error.not_found
unfolding retain find
retain_gone k x [] d h = refl
retain_gone k x (c ∷ cs) (IsDistinct.one_more new d) h = elim (Bool-cases (list_eq c.name x)) [
  | inl same ↦
      let here : ok c.inode ≡ ok k = rw same at (sym (of_name-cons x c cs) ∙ h) in
      let gone = eq→== c.inode k (ok-injective here) in
      rw gone
        (of_name_new x c.name c.inode (retain k cs) same (IsNew-retain k c.inode c.name cs new))
  | inr other ↦
      let later : of_name x cs ≡ ok k = rw other at (sym (of_name-cons x c cs) ∙ h) in
      let rest = retain_gone k x cs d later in
      elim (Bool-cases (c.inode == k)) [
        | inl gone ↦ rw gone rest
        | inr stays ↦ rw stays (of_name-cons x c (retain k cs) ∙ rw other rest)
      ]
]

retain_others :
    (k : ℕ) (x : List ℕ) (cs : List DirectoryChild)
    → of_name x cs ≢ ok k
    → of_name x (retain k cs) ≡ of_name x cs
unfolding retain find
retain_others k x [] h = refl
retain_others k x (c ∷ cs) h = elim (Bool-cases (list_eq c.name x)) [
  | inl same ↦
      let here : of_name x (c ∷ cs) ≡ ok c.inode = of_name-cons x c cs ∙ rw same refl in
      elim (Bool-cases (c.inode == k)) [
        | inl gone ↦ elim (h (here ∙ ap ok (==→eq c.inode k gone))) [ ]
        | inr stays ↦ rw stays (of_name-cons x c (retain k cs) ∙ rw same (sym here))
      ]
  | inr other ↦
      let skip : of_name x (c ∷ cs) ≡ of_name x cs = of_name-cons x c cs ∙ rw other refl in
      let rest = retain_others k x cs (λ e. h (skip ∙ e)) in
      elim (Bool-cases (c.inode == k)) [
        | inl gone ↦ rw gone (rest ∙ sym skip)
        | inr stays ↦ rw stays (of_name-cons x c (retain k cs) ∙ rw other (rest ∙ sym skip))
      ]
]

-- Where the names and inodes are distinct, `retain` takes exactly the names of the one inode out of the
-- directory, and leaves the rest distinct.
pub inode_of-retain :
    (k : ℕ) (dir : Directory)
    → IsDistinct dir.children
    → let dir' : Directory = record dir { children = retain k dir.children } in
      IsDistinct dir'.children
      × ((x : List ℕ) → inode_of x dir ≡ ok k → inode_of x dir' ≡ err Error.not_found)
      × ((x : List ℕ) → inode_of x dir ≢ ok k → inode_of x dir' ≡ inode_of x dir)
inode_of-retain k dir d =
    let dir' : Directory = record dir { children = retain k dir.children } in
    (
      retain-IsDistinct k dir.children d,
      λ x e. inode_of_lem x dir' ∙ retain_gone k x dir.children d (sym (inode_of_lem x dir) ∙ e),
      λ x ne.
          inode_of_lem x dir'
          ∙ retain_others k x dir.children (λ e. ne (inode_of_lem x dir ∙ e))
          ∙ sym (inode_of_lem x dir),
    )
