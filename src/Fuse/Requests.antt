-- ===== src/Fuse/Requests.antt =====
-- src/filesystem/fuse.rs: the requests that a mounted filesystem serves, one at a time.
use ftn_tananfs.Base.{ℕ, List, Option, ◌≡◌, refl}
use ftn_tananfs.Outcome.Action.{Action}
use ftn_tananfs.Outcome.Keeps.{Keeps}
use ftn_tananfs.Word.Int.{ℤ}
use ftn_tananfs.Device.{Device}
use ftn_tananfs.Filesystem.{Filesystem}
use ftn_tananfs.Filesystem.Invariant.{IsInvariant}
use ftn_tananfs.Filesystem.Accounts.{IsAccounted}
use ftn_tananfs.Filesystem.Accounts.Invariant.{
  IsAccounted-IsInvariant, HasLayout-IsInvariant, layout,
}
use ftn_tananfs.Fuse.{Reply}
use ftn_tananfs.Fuse.Session as Session
use ftn_tananfs.Fuse.Attributes as Attributes
use ftn_tananfs.Fuse.Files as Files
use ftn_tananfs.Fuse.Entries as Entries
use ftn_tananfs.Fuse.Entries.{Add}
use ftn_tananfs.Fuse.Invariant.{
  Keeps-destroy, Keeps-flush, Keeps-fsync, Keeps-getattr, Keeps-setattr, Keeps-open_file,
  Keeps-opendir, Keeps-read, Keeps-write, Keeps-fallocate, Keeps-readdir, Keeps-lookup, Keeps-rmdir,
  Keeps-unlink, Keeps-rename, Keeps-mknod, Keeps-mkdir, Keeps-statfs, Keeps-access,
}

-- A request with the arguments of its handler; `init` is not one of them.
pub data Request : Type 0 where
  destroy flush fsync statfs access : Request
  getattr open_file opendir : (ino : ℕ) → Request
  setattr : (ino : ℕ) → Option ℕ → Option ℕ → Option ℕ → Request
  read : (ino : ℕ) → ℤ → ℕ → Request
  write : (ino : ℕ) → ℤ → List ℕ → Request
  fallocate : (ino : ℕ) → ℤ → ℤ → ℤ → Request
  readdir : Add → (ino : ℕ) → ℤ → Request
  lookup : (List ℕ → List ℕ) → (parent : ℕ) → List ℕ → Request
  rmdir unlink : (parent : ℕ) → List ℕ → Request
  mknod mkdir : (parent : ℕ) → List ℕ → ℕ → Request
  rename : (parent : ℕ) → List ℕ → ℕ → List ℕ → Request

module _ {W : Type 0} (device : Device W) where
  -- The methods of `fuser::Filesystem` that the source implements
  unfoldable pub handle : Request → Action (Filesystem W) Reply
  handle Request.destroy = Session.destroy device
  handle Request.flush = Session.flush device
  handle Request.fsync = Session.fsync device
  handle Request.statfs = Session.statfs
  handle Request.access = Session.access
  handle (Request.getattr ino) = Attributes.getattr device ino
  handle (Request.open_file ino) = Attributes.open_file device ino
  handle (Request.opendir ino) = Attributes.opendir device ino
  handle (Request.setattr ino mode uid gid) = Attributes.setattr device ino mode uid gid
  handle (Request.read ino offset size) = Files.read device ino offset size
  handle (Request.write ino offset bytes) = Files.write device ino offset bytes
  handle (Request.fallocate ino offset count mode) = Files.fallocate device ino offset count mode
  handle (Request.readdir add ino offset) = Entries.readdir device add ino offset
  handle (Request.lookup lossy parent name) = Entries.lookup device lossy parent name
  handle (Request.rmdir parent name) = Entries.rmdir device parent name
  handle (Request.unlink parent name) = Entries.unlink device parent name
  handle (Request.mknod parent name mode) = Entries.mknod device parent name mode
  handle (Request.mkdir parent name mode) = Entries.mkdir device parent name mode
  handle (Request.rename parent name new_parent new_name) =
      Entries.rename device parent name new_parent new_name

  -- The states that a filesystem comes to by serving requests. What a handler does before a panic
  -- stays done.
  pub data Reach (fs : Filesystem W) : Filesystem W → Type 0 where
    here : Reach fs fs
    served : (r : Request) (fs' : Filesystem W) → Reach fs fs' → Reach fs (handle r fs').1

  module _ {P : Filesystem W → Type 0} (invariant : IsInvariant device P) where
    -- Every handler keeps every invariant of the superblock and the bitmaps, however it ends.
    pub Keeps-handle : (r : Request) → Keeps P (handle r)
    unfolding handle
    Keeps-handle Request.destroy = Keeps-destroy invariant
    Keeps-handle Request.flush = Keeps-flush invariant
    Keeps-handle Request.fsync = Keeps-fsync invariant
    Keeps-handle Request.statfs = Keeps-statfs invariant
    Keeps-handle Request.access = Keeps-access invariant
    Keeps-handle (Request.getattr ino) = Keeps-getattr invariant ino
    Keeps-handle (Request.open_file ino) = Keeps-open_file invariant ino
    Keeps-handle (Request.opendir ino) = Keeps-opendir invariant ino
    Keeps-handle (Request.setattr ino mode uid gid) = Keeps-setattr invariant ino mode uid gid
    Keeps-handle (Request.read ino offset size) = Keeps-read invariant ino offset size
    Keeps-handle (Request.write ino offset bytes) = Keeps-write invariant ino offset bytes
    Keeps-handle (Request.fallocate ino offset count mode) =
        Keeps-fallocate invariant ino offset count mode
    Keeps-handle (Request.readdir add ino offset) = Keeps-readdir invariant add ino offset
    Keeps-handle (Request.lookup lossy parent name) = Keeps-lookup invariant lossy parent name
    Keeps-handle (Request.rmdir parent name) = Keeps-rmdir invariant parent name
    Keeps-handle (Request.unlink parent name) = Keeps-unlink invariant parent name
    Keeps-handle (Request.mknod parent name mode) = Keeps-mknod invariant parent name mode
    Keeps-handle (Request.mkdir parent name mode) = Keeps-mkdir invariant parent name mode
    Keeps-handle (Request.rename parent name new_parent new_name) =
        Keeps-rename invariant parent name new_parent new_name

    pub Reach-keeps : {fs fs' : Filesystem W} → Reach fs fs' → P fs → P fs'
    Reach-keeps Reach.here h = h
    Reach-keeps (Reach.served r fs' reach) h = (Keeps-handle r).at fs' (Reach-keeps reach h)

  -- Whatever requests are served, whatever the device answers, and however the handlers end: the
  -- accounts stay as right as they were.
  pub Reach-IsAccounted :
      (extra : ℕ) (fs fs' : Filesystem W)
      → Reach fs fs'
      → IsAccounted extra fs
      → IsAccounted extra fs'
  Reach-IsAccounted extra fs fs' reach a =
      Reach-keeps (IsAccounted-IsInvariant device extra) reach a

  -- No request changes where the structures of the filesystem are.
  pub layout-Reach : (fs fs' : Filesystem W) → Reach fs fs' → layout fs' ≡ layout fs
  layout-Reach fs fs' reach = Reach-keeps (HasLayout-IsInvariant device (layout fs)) reach refl
