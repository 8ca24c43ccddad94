-- ===== src/Directory/Access.antt =====
-- src/filetypes/directory.rs: a directory is loaded and flushed through its raw file; `read` and
-- `flush` of src/filetypes/directory_child.rs.
use ftn_tananfs.Base.{ℕ, zero, suc, if◌then◌else◌, ◌||◌, false, not, List, [], ◌∷◌, length}
use ftn_tananfs.Outcome.Action.{Action, pure, lift, gets, modify, ◌>>=◌, ◌>>◌}
use ftn_tananfs.Structs.{Inode}
use ftn_tananfs.Cursor.{position, reset}
use ftn_tananfs.Device.{Device}
use ftn_tananfs.DirectoryChild.{DirectoryChild, as_bytes}
use ftn_tananfs.Filesystem.{Filesystem}
use ftn_tananfs.Filesystem.Using.{Using, on_object, on_fs, on_part, with_object}
use ftn_tananfs.Filesystem.Access.{load_inode, flush_inode}
use ftn_tananfs.RawFile.{RawByteFile, Opened, update_inode}
use ftn_tananfs.RawFile as RawFile
use ftn_tananfs.RawFile.Read.{read_u64, read_string, read_sized_string}
use ftn_tananfs.RawFile.Write.{write as write_raw}
use ftn_tananfs.RegularFile.{timestamp_now}
use ftn_tananfs.Directory.{Directory}

module _ {W A : Type 0} where
  -- A call on the raw file of the directory
  abbrev pub on_file : Action (Opened W) A → Action (Using Directory W) A
  on_file = on_part (λ dir. dir.file) (λ raw dir. record dir { file = raw })

module _ {W : Type 0} where
  abbrev set_inode : (Inode → Inode) → Action (Using Directory W) (Unit {0})
  set_inode change = on_object (modify (λ dir. record dir { inode = change dir.inode }))

module _ {W : Type 0} (device : Device W) where
  -- `DirectoryChild::read`
  unfoldable pub read_child : Action (Opened W) DirectoryChild
  read_child = do
    inode ← read_u64 device
    name ← read_sized_string device
    pure (record { inode = inode; name = name })

  -- `DirectoryChild::flush`
  unfoldable pub flush_child : DirectoryChild → Action (Opened W) (Unit {0})
  flush_child c = write_raw device (as_bytes c)

  -- The loop of `load`, with so many children still to read
  unfoldable pub read_children : ℕ → Action (Opened W) (List DirectoryChild)
  read_children zero = pure []
  read_children (suc n) = do c ← read_child; cs ← read_children n; pure (c ∷ cs)

  -- `FileOperations::load`; the memory for the children is there.
  unfoldable pub load : ℕ → Action (Filesystem W) Directory
  load index = do
    inode ← load_inode device index
    block_size ← gets (λ fs. fs.superblock.block_size)
    with_object (RawFile.load block_size inode) (do
      name ← read_string device inode.metadata.m2
      children ← read_children inode.metadata.m1
      raw ← gets (λ o. o.object)
      pure (record {
        inode = inode;
        file = raw;
        name = name;
        children = children;
        modified = false;
        removed = false;
      }))

  -- The loop of `flush`
  unfoldable pub flush_children : List DirectoryChild → Action (Opened W) (Unit {0})
  flush_children [] = pure tt
  flush_children (c ∷ cs) = do flush_child c; flush_children cs

  -- `FileOperations::flush`
  unfoldable pub flush : Action (Using Directory W) (Unit {0})
  flush = do
    on_file (on_object (modify (λ raw. record raw { cursor = reset raw.cursor })))
    name ← gets (λ u. u.object.name)
    on_file (write_raw device name)
    children ← gets (λ u. u.object.children)
    on_file (flush_children children)
    raw ← gets (λ u. u.object.file)
    set_inode (update_inode raw)
    now ← on_fs (timestamp_now device)
    set_inode (λ inode. record inode { mtime = now; block_count = raw.block_count })
    size ← lift (position raw.cursor)
    set_inode (λ inode. record inode {
      size = size;
      metadata = record inode.metadata { m1 = length children; m2 = length name };
    })
    inode ← gets (λ u. u.object.inode)
    on_fs (flush_inode device inode)
    on_object (modify (λ dir. record dir { modified = false }))

  -- `Drop`, whose caller passes over the error that is logged
  unfoldable pub drop : Action (Using Directory W) (Unit {0})
  drop = do
    skipped ← gets (λ u. u.object.removed || not u.object.modified)
    if skipped then pure tt else flush
