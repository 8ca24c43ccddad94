-- ===== src/RawFile/Remove.antt =====
-- `remove` of a raw file, by the number of its inode.
use ftn_tananfs.Base.{ℕ, ◌==◌}
use ftn_tananfs.Outcome.{assert}
use ftn_tananfs.Outcome.Action.{Action, lift, gets, ◌>>=◌, ◌>>◌}
use ftn_tananfs.Structs.{null_block}
use ftn_tananfs.Device.{Device}
use ftn_tananfs.Filesystem.{Filesystem}
use ftn_tananfs.Filesystem.Using.{with_object}
use ftn_tananfs.Filesystem.Access.{load_inode}
use ftn_tananfs.RawFile.{load}
use ftn_tananfs.RawFile.Shrink.{shrink}

module _ {W : Type 0} (device : Device W) where
  unfoldable pub remove : ℕ → Action (Filesystem W) (Unit {0})
  remove index = do
    inode ← load_inode device index
    block_size ← gets (λ fs. fs.superblock.block_size)
    with_object (load block_size inode) (do
      shrink device 0
      first ← gets (λ o. o.object.first_block)
      lift (assert (first == null_block)))
