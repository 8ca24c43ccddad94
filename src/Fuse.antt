-- ===== src/Fuse.antt =====
-- src/filesystem/fuse.rs: the handlers of FUSE requests, by what they answer. A handler's state is
-- the filesystem; the request, the file handle, flags that are only logged and the arguments that
-- the source leaves unused are not arguments here. Names are bytes (`OsStr`).
pub mod Session
pub mod Attributes
pub mod Files
pub mod Entries
pub mod Invariant
pub mod Requests
pub mod Mounted
pub mod Listing
pub mod Reading
pub mod Writing
pub mod ReadWrite
pub mod Getattr
use ftn_tananfs.Base.{ℕ, List}
use ftn_tananfs.Error.{Error, Errno, to_errno}
use ftn_tananfs.Outcome.Action.{Action, pure, rescue, match_result}
use ftn_tananfs.Structs.Attrs.{FileAttr}
use ftn_tananfs.Word.Int.{ℤ}
use ftn_tananfs.Filesystem.{Filesystem}

-- The arguments of `ReplyDirectory::add`
pub record DirectoryEntry : Type 0 where
  pub ino : ℕ
  pub offset : ℤ
  pub kind : ℕ
  pub name : List ℕ

-- The arguments of `ReplyStatfs::statfs`
pub record Statfs : Type 0 where
  pub blocks : ℕ
  pub bfree : ℕ
  pub bavail : ℕ
  pub files : ℕ
  pub ffree : ℕ
  pub bsize : ℕ
  pub namelen : ℕ
  pub frsize : ℕ

-- The call on the reply that a handler makes. `opened` is with handle 0 and `FOPEN_DIRECT_IO`, an
-- `entry` or `attr` is valid for 0 seconds, and `unanswered` is the reply that is dropped when the
-- handler's closure returns an error, which is logged.
pub data Reply : Type 0 where
  done : Reply
  error : Errno → Reply
  entry : FileAttr → Reply
  attr : FileAttr → Reply
  bytes : List ℕ → Reply
  written : ℕ → Reply
  opened : Reply
  listed : List DirectoryEntry → Reply
  statfs : Statfs → Reply
  unanswered : Reply

module _ {W : Type 0} where
  -- `inner().unwrap_or_else(|e| error!(…))`
  abbrev pub answered : Action (Filesystem W) Reply → Action (Filesystem W) Reply
  answered inner = rescue inner (λ e. pure Reply.unanswered)

  -- `match m { Ok(a) => f(a), Err(e) => reply.error(e.into()) }`
  abbrev pub or_error :
      {A : Type 0}
      → Action (Filesystem W) A
      → (A → Action (Filesystem W) Reply)
      → Action (Filesystem W) Reply
  or_error m f = match_result m f (λ e. pure (Reply.error (to_errno e)))
