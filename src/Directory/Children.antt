-- ===== src/Directory/Children.antt =====
-- src/filetypes/directory.rs: children are transferred and removed.
use ftn_tananfs.Base.{ℕ, ◌==◌, if◌then◌else◌, true, false, List, [], ◌∷◌, Option, none, some}
use ftn_tananfs.Error.{Error}
use ftn_tananfs.Outcome.{panic}
use ftn_tananfs.Outcome.Action.{Action, raise, lift, gets, gets_ok, modify, raise_if, ◌>>=◌, ◌>>◌}
use ftn_tananfs.Device.{Device}
use ftn_tananfs.DirectoryChild.{DirectoryChild}
use ftn_tananfs.Filesystem.{Filesystem}
use ftn_tananfs.Filesystem.Using.{Using, on_object, on_fs, with_object, scoped}
use ftn_tananfs.Filesystem.Access.{load_inode}
use ftn_tananfs.Filesystem.Allocator.{release_inode}
use ftn_tananfs.RawFile.Remove.{remove as remove_raw}
use ftn_tananfs.RegularFile as RegularFile
use ftn_tananfs.Directory.{
  Directory, DirectoryChildIdentifier, get_child_inode, add_child, retain, rename_child,
}
use ftn_tananfs.Directory.Access.{load, drop}

module _ {W : Type 0} where
  -- The children with one renamed, where the one was found
  unfoldable pub put_children : Option (List DirectoryChild) → Action (Using Directory W) (Unit {0})
  put_children none = lift panic
  put_children (some renamed) = on_object (modify (λ dir. record dir { children = renamed }))

module _ {W : Type 0} (device : Device W) where
  -- `remove_empty`, which ends the scope of the directory
  unfoldable pub remove_empty : Action (Using Directory W) (Unit {0})
  remove_empty = scoped (drop device) (do
    children ← gets (λ u. u.object.children)
    raise_if (elim children [ [] ↦ false | c ∷ cs ↦ true ]) Error.directory_not_empty
    index ← gets (λ u. u.object.inode.index)
    on_fs (remove_raw device index)
    on_fs (release_inode device index)
    on_object (modify (λ dir. record dir { removed = true })))

  -- A call on the directory with the given inode, which is dropped after it
  unfoldable pub in_directory :
      {A : Type 0} → ℕ → Action (Using Directory W) A → Action (Filesystem W) A
  in_directory index m = do dir ← load device index; with_object dir (scoped (drop device) m)

  -- `transfer_child` within the directory
  unfoldable pub transfer_within : ℕ → List ℕ → Action (Using Directory W) (Unit {0})
  transfer_within child new_name = do
    children ← gets (λ u. u.object.children)
    put_children (rename_child child new_name children)

  -- `transfer_child` to another directory, which is dropped before the child is taken out here; the
  -- two do not depend on each other.
  unfoldable pub transfer_across : ℕ → ℕ → List ℕ → Action (Using Directory W) (Unit {0})
  transfer_across child new_parent new_name = do
    on_fs (in_directory new_parent (on_object (add_child new_name child)))
    on_object (modify (λ dir. record dir { children = retain child dir.children }))

  unfoldable pub transfer_child :
      DirectoryChildIdentifier → ℕ → List ℕ → Action (Using Directory W) (Unit {0})
  transfer_child identifier new_parent new_name = do
    child ← gets_ok (λ u. get_child_inode identifier u.object)
    index ← gets (λ u. u.object.inode.index)
    (if new_parent == index
        then transfer_within child new_name
        else transfer_across child new_parent new_name)
    on_object (modify (λ dir. record dir { modified = true }))

  -- What `remove_child` does with the child's own inode, by its type
  unfoldable pub remove_inode : ℕ → ℕ → Action (Filesystem W) (Unit {0})
  remove_inode file_type index =
      if file_type == device.regular_file
      then (do file ← RegularFile.load device index; with_object file (RegularFile.remove device))
      else if file_type == device.directory
      then (do dir ← load device index; with_object dir remove_empty)
      else raise Error.null_block

  unfoldable pub remove_child : DirectoryChildIdentifier → Action (Using Directory W) (Unit {0})
  remove_child identifier = do
    on_object (modify (λ dir. record dir { modified = true }))
    child ← gets_ok (λ u. get_child_inode identifier u.object)
    inode ← on_fs (load_inode device child)
    on_fs (remove_inode inode.file_type inode.index)
    on_object (modify (λ dir. record dir { children = retain inode.index dir.children }))
