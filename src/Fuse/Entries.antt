-- ===== src/Fuse/Entries.antt =====
-- src/filesystem/fuse.rs: the handlers on the entries of a directory.
use ftn_tananfs.Base.{
  ℕ, zero, suc, ◌+◌, if◌then◌else◌, Bool, true, false, List, [], ◌∷◌, drop as skip,
}
use ftn_tananfs.Error.{to_errno}
use ftn_tananfs.Outcome.{assert}
use ftn_tananfs.Outcome.Action.{Action, pure, lift, gets, gets_ok, match_result, ◌>>=◌, ◌>>◌}
use ftn_tananfs.Structs.Attrs.{attrs}
use ftn_tananfs.Word.Int.{ℤ, pos, negsuc, as_i64, as_u64, ◌+i◌}
use ftn_tananfs.Word.Utf8.{is_utf8}
use ftn_tananfs.Device.{Device}
use ftn_tananfs.DirectoryChild.{DirectoryChild}
use ftn_tananfs.Filesystem.{Filesystem}
use ftn_tananfs.Filesystem.Using.{Using, on_fs, with_object, scoped}
use ftn_tananfs.Filesystem.Access.{load_inode}
use ftn_tananfs.RegularFile as RegularFile
use ftn_tananfs.RegularFile.Create as Created
use ftn_tananfs.Directory.{DirectoryChildIdentifier, get_child_inode}
use ftn_tananfs.Directory.Access.{load, drop}
use ftn_tananfs.Directory.Children.{in_directory, transfer_child, remove_child}
use ftn_tananfs.Directory.Create.{new as new_directory}
use ftn_tananfs.Fuse.{DirectoryEntry, Reply, answered, or_error}

-- `ReplyDirectory::add`: the entries with one more, and whether the buffer is full
abbrev pub Add : Type 0
Add = List DirectoryEntry → DirectoryEntry → List DirectoryEntry × Bool

-- `match m { Ok(a) => f(a), Err(e) => reply.error(e.into()) }` on an object
abbrev or_error_using :
    {T W A : Type 0}
    → Action (Using T W) A
    → (A → Action (Using T W) Reply)
    → Action (Using T W) Reply
or_error_using m f = match_result m f (λ e. pure (Reply.error (to_errno e)))

-- `offset == 0`
abbrev is_zero : ℤ → Bool
is_zero (pos zero) = true
is_zero (pos (suc n)) = false
is_zero (negsuc n) = false

module _ {W : Type 0} (device : Device W) where
  -- The loop of `readdir`, from the child with the given index on
  unfoldable pub list_children :
      Add
      → ℕ
      → ℤ
      → ℕ
      → List DirectoryChild
      → List DirectoryEntry
      → Action (Filesystem W) (List DirectoryEntry)
  list_children add ino offset index [] entries = pure entries
  list_children add ino offset index (child ∷ children) entries = do
    inode ← load_inode device ino
    behind ← lift (offset +i as_i64 index)
    next ← lift (behind +i pos 3)
    let (entries', full) =
        add entries (record { ino = ino; offset = next; kind = inode.file_type; name = child.name })
    if full then pure entries' else list_children add ino offset (index + 1) children entries'

  -- The entries `.` and `..`, which are added at offset 0; that the buffer is full is passed over.
  unfoldable pub dots : Add → ℕ → ℕ → List DirectoryEntry
  dots add ino parent =
      let (one, full) =
        add [] (record { ino = ino; offset = pos 0; kind = device.directory; name = 0x2e ∷ [] }) in
      let (two, full') = add one (record {
        ino = parent;
        offset = pos 1;
        kind = device.directory;
        name = 0x2e ∷ 0x2e ∷ [];
      }) in
      two

  unfoldable pub readdir : Add → ℕ → ℤ → Action (Filesystem W) Reply
  readdir add ino offset = answered (
      or_error (load device ino) (λ dir. with_object dir (
        scoped (drop device) (do
          parent ← gets (λ u. u.object.inode.metadata.m0)
          children ← gets (λ u. u.object.children)
          let first = if is_zero offset then dots add ino parent else []
          entries ← on_fs (list_children add ino offset 0 (skip (as_u64 offset) children) first)
          pure (Reply.listed entries)))))

  -- `lookup`, given `to_string_lossy`
  unfoldable pub lookup : (List ℕ → List ℕ) → ℕ → List ℕ → Action (Filesystem W) Reply
  lookup to_string_lossy parent name = answered (
      in_directory device parent (
        or_error_using
          (gets_ok (λ u.
            get_child_inode (DirectoryChildIdentifier.by_name (to_string_lossy name)) u.object))
          (λ child. do
            inode ← on_fs (load_inode device child)
            gets (λ u. Reply.entry (attrs inode u.fs.superblock)))))

  unfoldable pub rmdir : ℕ → List ℕ → Action (Filesystem W) Reply
  rmdir parent name = answered (
      in_directory device parent (do
        lift (assert (is_utf8 name))
        or_error_using (remove_child device (DirectoryChildIdentifier.by_name name))
            (λ u. pure Reply.done)))

  unfoldable pub unlink : ℕ → List ℕ → Action (Filesystem W) Reply
  unlink parent name = answered (do
    lift (assert (is_utf8 name))
    or_error (load device parent) (λ dir. with_object dir (
        scoped (drop device) (
          or_error_using (remove_child device (DirectoryChildIdentifier.by_name name))
            (λ u. pure Reply.done)))))

  unfoldable pub rename : ℕ → List ℕ → ℕ → List ℕ → Action (Filesystem W) Reply
  rename parent name new_parent new_name = answered (do
    lift (assert (is_utf8 name))
    lift (assert (is_utf8 new_name))
    in_directory device parent (
        or_error_using
          (transfer_child device (DirectoryChildIdentifier.by_name name) new_parent new_name)
          (λ u. pure Reply.done)))

  unfoldable pub mknod : ℕ → List ℕ → ℕ → Action (Filesystem W) Reply
  mknod parent name mode = answered (do
    lift (assert (is_utf8 name))
    or_error (Created.new device parent name mode) (λ file. with_object file (
        scoped (RegularFile.drop device)
          (gets (λ u. Reply.entry (attrs u.object.inode u.fs.superblock))))))

  unfoldable pub mkdir : ℕ → List ℕ → ℕ → Action (Filesystem W) Reply
  mkdir parent name mode = answered (do
    lift (assert (is_utf8 name))
    or_error (new_directory device parent name mode) (λ dir.
        with_object dir
          (scoped (drop device) (gets (λ u. Reply.entry (attrs u.object.inode u.fs.superblock))))))
