-- ===== src/RegularFile.antt =====
-- src/filetypes/regular_file.rs: a regular file, an inode with a raw file. A method's state is the
-- file and the filesystem that it shares.
pub mod Create
pub mod Invariant
pub mod Length
pub mod Reading
pub mod Writing
use ftn_tananfs.Base.{ℕ, ltb, ◌==◌, ◌||◌, if◌then◌else◌, Bool, true, false, not, List}
use ftn_tananfs.Error.{Error}
use ftn_tananfs.Outcome.{Outcome, ok, ◌-u◌}
use ftn_tananfs.Outcome.Action.{Action, pure, lift, gets, gets_ok, modify, raise_if, ◌>>=◌, ◌>>◌}
use ftn_tananfs.Structs.{Inode}
use ftn_tananfs.Cursor.{current}
use ftn_tananfs.Device.{Device}
use ftn_tananfs.Filesystem.{Filesystem, on_store, on_world}
use ftn_tananfs.Filesystem.Using.{Using, on_object, on_fs, on_part, scoped}
use ftn_tananfs.Filesystem.Access.{load_inode, flush_inode}
use ftn_tananfs.Filesystem.Allocator.{release_inode}
use ftn_tananfs.RawFile.{RawByteFile, Opened, SeekFrom, seek, update_inode}
use ftn_tananfs.RawFile as RawFile
use ftn_tananfs.RawFile.Read.{read as read_raw}
use ftn_tananfs.RawFile.Write.{write as write_raw}
use ftn_tananfs.RawFile.Remove.{remove as remove_raw}

pub record RegularFile : Type 0 where
  pub inode : Inode
  pub file : RawByteFile
  pub modified : Bool
  pub removed : Bool

-- `timestamp_now` of src/filetypes/helpers.rs
unfoldable pub timestamp_now : {W : Type 0} → Device W → Action (Filesystem W) ℕ
timestamp_now device = on_store (on_world (λ w. let (now, w') = device.unix_time w in (ok now, w')))

module _ {W A : Type 0} where
  -- A call on the raw file of the file
  abbrev pub on_file : Action (Opened W) A → Action (Using RegularFile W) A
  on_file = on_part (λ f. f.file) (λ raw f. record f { file = raw })

module _ {W : Type 0} where
  abbrev pub set_modified : Bool → Action (Using RegularFile W) (Unit {0})
  set_modified flag = on_object (modify (λ f. record f { modified = flag }))

  abbrev pub set_inode : (Inode → Inode) → Action (Using RegularFile W) (Unit {0})
  set_inode change = on_object (modify (λ f. record f { inode = change f.inode }))

module _ {W : Type 0} (device : Device W) where
  unfoldable pub read : ℕ → ℕ → Action (Using RegularFile W) (List ℕ)
  read offset size = do
    there ← on_file (on_object (seek (SeekFrom.start offset)))
    raise_if (not (there == offset)) Error.insufficient_bytes
    here ← gets_ok (λ u. current u.object.file.cursor)
    lookahead_size ← gets_ok (λ u. u.object.file.size -u here)
    now ← on_fs (timestamp_now device)
    set_inode (λ inode. record inode { atime = now })
    on_file (read_raw device (if ltb lookahead_size size then lookahead_size else size))

  unfoldable pub write : ℕ → List ℕ → Action (Using RegularFile W) (Unit {0})
  write offset bytes = do
    set_modified true
    there ← on_file (on_object (seek (SeekFrom.start offset)))
    raise_if (not (there == offset)) Error.insufficient_bytes
    accessed ← on_fs (timestamp_now device)
    set_inode (λ inode. record inode { atime = accessed })
    changed ← on_fs (timestamp_now device)
    set_inode (λ inode. record inode { mtime = changed })
    on_file (write_raw device bytes)

  -- `FileOperations::load`
  unfoldable pub load : ℕ → Action (Filesystem W) RegularFile
  load index = do
    inode ← load_inode device index
    block_size ← gets (λ fs. fs.superblock.block_size)
    pure (record {
      inode = inode;
      file = RawFile.load block_size inode;
      modified = false;
      removed = false;
    })

  -- `FileOperations::flush`
  unfoldable pub flush : Action (Using RegularFile W) (Unit {0})
  flush = do
    set_modified false
    raw ← gets (λ u. u.object.file)
    set_inode (update_inode raw)
    now ← on_fs (timestamp_now device)
    set_inode
        (λ inode. record inode { mtime = now; block_count = raw.block_count; size = raw.size })
    inode ← gets (λ u. u.object.inode)
    on_fs (flush_inode device inode)

  -- `Drop`, whose caller passes over the error that is logged
  unfoldable pub drop : Action (Using RegularFile W) (Unit {0})
  drop = do
    skipped ← gets (λ u. u.object.removed || not u.object.modified)
    if skipped then pure tt else flush

  -- `remove` of the file itself, which ends its scope
  unfoldable pub remove : Action (Using RegularFile W) (Unit {0})
  remove = scoped drop (do
    index ← gets (λ u. u.object.inode.index)
    on_fs (remove_raw device index)
    on_fs (release_inode device index)
    on_object (modify (λ f. record f { removed = true })))
