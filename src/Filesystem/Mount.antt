-- ===== src/Filesystem/Mount.antt =====
-- src/filesystem/mod.rs: a filesystem is made on a device, found on it, and loaded from it.
use ftn_tananfs.Base.{ℕ, zero, suc, ◌+◌, ◌^◌, leb, ◌==◌, if◌then◌else◌, ◌&&◌, Option, none, some}
use ftn_tananfs.Outcome.{Outcome, ok, assert}
use ftn_tananfs.Outcome.Action.{Action, pure, lift, ◌>>=◌, ◌>>◌}
use ftn_tananfs.Structs.{Superblock, Bitmap, magic_signature}
use ftn_tananfs.Structs.Size.{next_power_of_two}
use ftn_tananfs.Superblock.{new as new_superblock}
use ftn_tananfs.Bitmap.{new_inodes, new_blocks}
use ftn_tananfs.Cache.{empty}
use ftn_tananfs.Word.Bytes.{from_le}
use ftn_tananfs.Device.{Device}
use ftn_tananfs.Device.Structures as Structures
use ftn_tananfs.Filesystem.{Filesystem}

module _ {W : Type 0} where
  fresh : W → Superblock → Bitmap → Bitmap → Filesystem W
  fresh w s inodes blocks = record {
    superblock = s;
    inodes = inodes;
    blocks = blocks;
    store = record { world = w; cache = empty; last_flush = none };
  }

  -- `Filesystem::new`; the device is the state.
  unfoldable pub new : ℕ → ℕ → W → Outcome (Filesystem W)
  unfolding fresh
  new capacity block_size w =
      let (r, _) =
        (do
          s ← lift (new_superblock capacity block_size)
          rounded ← lift (next_power_of_two 32 block_size)
          lift (assert (rounded == block_size && leb 512 block_size && leb block_size 4096))
          inodes ← lift (new_inodes s)
          blocks ← lift (new_blocks s)
          pure (fresh w s inodes blocks))
          w in
      r

module _ {W : Type 0} (device : Device W) where
  -- The loop of `detect_existing`, from `2 ^ pow` on
  unfoldable pub detect_from : ℕ → ℕ → Action W (Option ℕ)
  detect_from zero pow = pure none
  detect_from (suc rounds) pow = do
    device.seek (2 ^ pow + 0x38)
    buffer ← device.read_exact 8
    if from_le buffer == magic_signature
        then pure (some (2 ^ pow))
        else detect_from rounds (pow + 1)

  unfoldable pub detect_existing : Action W (Option ℕ)
  unfolding detect_from
  detect_existing = detect_from 4 9

  -- `Filesystem::load`
  unfoldable pub load : ℕ → W → Outcome (Filesystem W)
  unfolding fresh
  load block_size w =
      let (r, _) =
        (do
          s ← Structures.load_superblock device block_size
          inodes ← lift (new_inodes s)
          blocks ← lift (new_blocks s)
          inodes' ← Structures.load_bitmap device inodes
          blocks' ← Structures.load_bitmap device blocks
          λ w. (ok (fresh w s inodes' blocks'), w))
          w in
      r
