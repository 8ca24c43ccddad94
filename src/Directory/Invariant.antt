-- ===== src/Directory/Invariant.antt =====
-- The calls on a directory, and those that make a file or directory, keep every invariant of the
-- superblock and the bitmaps.
use ftn_tananfs.Base.{ℕ, zero, suc, List, [], ◌∷◌, Option, none, some}
use ftn_tananfs.Outcome.Action.{Action, pure, ◌>>=◌}
use ftn_tananfs.Outcome.Keeps.{Keeps, Keeps-pure, Keeps-bind}
use ftn_tananfs.Device.{Device}
use ftn_tananfs.DirectoryChild.{DirectoryChild, as_bytes}
use ftn_tananfs.Filesystem.{Filesystem}
use ftn_tananfs.Filesystem.Using.{Using, with_object, scoped}
use ftn_tananfs.Filesystem.Invariant.{IsInvariant, Keeps-acquire_inode, Keeps-release_inode}
use ftn_tananfs.Filesystem.Invariant.Shared.{Shares, Keeps-with_object, Keeps-scoped}
use ftn_tananfs.RawFile.Invariant.{
  Keeps-write as Keeps-write_raw, Keeps-read_u64, Keeps-read_string, Keeps-read_sized_string,
}
use ftn_tananfs.RawFile.Resizing.{Keeps-remove as Keeps-remove_raw}
use ftn_tananfs.RegularFile.Invariant.{
  file_rules, Keeps-load as Keeps-load_file, Keeps-remove as Keeps-remove_file,
}
use ftn_tananfs.Directory.{Directory, DirectoryChildIdentifier}
use ftn_tananfs.Directory.Access.{
  load, flush, drop, read_child, read_children, flush_child, flush_children,
}
use ftn_tananfs.Directory.Children.{
  put_children, remove_empty, in_directory, transfer_child, transfer_within, transfer_across,
  remove_child, remove_inode,
}
use ftn_tananfs.Directory.Create.{new, add_to_parent}
use ftn_tananfs.RegularFile.Create as Created

module _ {W : Type 0} {device : Device W} {P : Filesystem W → Type 0}
    (invariant : IsInvariant device P) where
  Keeps-read_child : Keeps (Shares P) (read_child device)
  unfolding read_child
  Keeps-read_child = search (file_rules, Keeps-read_u64, Keeps-read_sized_string) depth 20

  Keeps-read_children : (n : ℕ) → Keeps (Shares P) (read_children device n)
  unfolding read_children
  Keeps-read_children zero = search file_rules
  Keeps-read_children (suc n) =
      Keeps-bind (read_child device) (λ c. read_children device n >>= λ cs. pure (c ∷ cs))
        Keeps-read_child
        (λ c.
          Keeps-bind (read_children device n) (λ cs. pure (c ∷ cs)) (Keeps-read_children n)
            (λ cs. Keeps-pure (c ∷ cs)))

  pub Keeps-load : (index : ℕ) → Keeps P (load device index)
  unfolding load
  Keeps-load index = search (file_rules, Keeps-read_string, Keeps-read_children) depth 20

  Keeps-flush_children : (cs : List DirectoryChild) → Keeps (Shares P) (flush_children device cs)
  unfolding flush_children flush_child
  Keeps-flush_children [] = search file_rules
  Keeps-flush_children (c ∷ cs) =
      Keeps-bind (flush_child device c) (λ u. flush_children device cs)
        (Keeps-write_raw invariant (as_bytes c)) (λ u. Keeps-flush_children cs)

  Keeps-flush : Keeps (Shares P) (flush device)
  unfolding flush
  Keeps-flush = search (file_rules, Keeps-write_raw, Keeps-flush_children) depth 30

  pub Keeps-drop : Keeps (Shares P) (drop device)
  unfolding drop
  Keeps-drop = search (file_rules, Keeps-flush) depth 20

  ruleset scope_rules = (file_rules, Keeps-load, Keeps-drop)

  Keeps-remove_empty : Keeps (Shares P) (remove_empty device)
  unfolding remove_empty
  Keeps-remove_empty = search (scope_rules, Keeps-remove_raw, Keeps-release_inode) depth 20

  pub Keeps-in_directory :
      {A : Type 0} (index : ℕ) (m : Action (Using Directory W) A)
      → Keeps (Shares P) m
      → Keeps P (in_directory device index m)
  unfolding in_directory
  Keeps-in_directory index m km =
      Keeps-bind (load device index) (λ dir. with_object dir (scoped (drop device) m))
        (Keeps-load index)
        (λ dir.
          Keeps-with_object dir (scoped (drop device) m)
            (Keeps-scoped (drop device) m Keeps-drop km))

  Keeps-put_children :
      (found : Option (List DirectoryChild)) → Keeps (Shares P) (put_children {W = W} found)
  unfolding put_children
  Keeps-put_children none = search file_rules
  Keeps-put_children (some children) = search file_rules

  Keeps-transfer_within :
      (child : ℕ) (name : List ℕ) → Keeps (Shares P) (transfer_within device child name)
  unfolding transfer_within
  Keeps-transfer_within child name = search (file_rules, Keeps-put_children) depth 20

  Keeps-transfer_across :
      (child parent : ℕ) (name : List ℕ)
      → Keeps (Shares P) (transfer_across device child parent name)
  unfolding transfer_across
  Keeps-transfer_across child parent name = search (file_rules, Keeps-in_directory) depth 20

  pub Keeps-transfer_child :
      (child : DirectoryChildIdentifier) (parent : ℕ) (name : List ℕ)
      → Keeps (Shares P) (transfer_child device child parent name)
  unfolding transfer_child
  Keeps-transfer_child child parent name =
      search (file_rules, Keeps-transfer_within, Keeps-transfer_across) depth 20

  Keeps-remove_inode : (file_type index : ℕ) → Keeps P (remove_inode device file_type index)
  unfolding remove_inode
  Keeps-remove_inode file_type index =
      search (scope_rules, Keeps-load_file, Keeps-remove_file, Keeps-remove_empty) depth 20

  pub Keeps-remove_child :
      (child : DirectoryChildIdentifier) → Keeps (Shares P) (remove_child device child)
  unfolding remove_child
  Keeps-remove_child child = search (file_rules, Keeps-remove_inode) depth 20

  Keeps-add_to_parent :
      (parent : ℕ) (name : List ℕ) (index : ℕ) → Keeps P (add_to_parent device parent name index)
  unfolding add_to_parent
  Keeps-add_to_parent parent name index = search (file_rules, Keeps-in_directory) depth 20

  ruleset new_rules = (file_rules, Keeps-acquire_inode, Keeps-add_to_parent)

  pub Keeps-new : (parent : ℕ) (name : List ℕ) (mode : ℕ) → Keeps P (new device parent name mode)
  unfolding new
  Keeps-new parent name mode = search new_rules depth 20

  pub Keeps-new_file :
      (parent : ℕ) (name : List ℕ) (mode : ℕ) → Keeps P (Created.new device parent name mode)
  unfolding Created.new
  Keeps-new_file parent name mode = search new_rules depth 20
