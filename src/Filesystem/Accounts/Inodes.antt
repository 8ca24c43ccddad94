-- ===== src/Filesystem/Accounts/Inodes.antt =====
-- Acquiring and releasing an inode.
use ftn_tananfs.Base.{
  ℕ, ◌+◌, ◌-◌, ◌≤◌, ◌<◌, ◌≡◌, arith, tests, Bool, true, false, leb, ◌==◌, Bool-cases, inl, inr,
  if◌then◌else◌, Option, some, lt→leb-false,
}
use ftn_tananfs.Error.{Error}
use ftn_tananfs.Outcome.{Outcome, err, -u-ok, +u-ok}
use ftn_tananfs.Outcome.Action.{pure, ◌>>◌}
use ftn_tananfs.Structs.{null_block}
use ftn_tananfs.Bitmap.Bits.{occupied, written, get_lem, set-written}
use ftn_tananfs.Bitmap.NextFree.{FirstFree, next_free-FirstFree}
use ftn_tananfs.Device.{Device}
use ftn_tananfs.Filesystem.{Filesystem}
use ftn_tananfs.Filesystem.Flushing.{flush}
use ftn_tananfs.Filesystem.Allocator.{acquire_inode, acquire_inode_at, release_inode}
use ftn_tananfs.Filesystem.Accounts.{IsCounted, IsAccounted}
use ftn_tananfs.Filesystem.Accounts.Frame.{Kept, after, after-pure, flush-Kept}
use ftn_tananfs.Filesystem.Accounts.Counted.{
  IsCounted-take, IsCounted-give, IsCounted-pos, IsCounted-room, get_beyond,
}

module _ {W : Type 0} where
  -- What `acquire_inode` and `release_inode` have written when they flush
  abbrev pub inode_marked : ℕ → Bool → ℕ → Filesystem W → Filesystem W
  inode_marked i value free fs = record fs {
    superblock = record fs.superblock { inodes_free = free };
    inodes = written fs.inodes i value;
  }

  inode_marked-IsAccounted :
      {extra : ℕ} (i free : ℕ) (value : Bool) (fs fs' : Filesystem W)
      → IsAccounted extra fs
      → IsCounted extra fs.superblock.inode_count free (written fs.inodes i value)
      → Kept (inode_marked i value free fs) fs'
      → IsAccounted extra fs'
  inode_marked-IsAccounted i free value fs fs' a c kept = record {
    of_blocks = rw (kept.superblock, kept.blocks) a.of_blocks;
    of_inodes = rw (kept.superblock, kept.inodes) c;
  }

module _ {W : Type 0} (device : Device W) where
  acquire_inode_found :
      {extra : ℕ} (fs : Filesystem W) (i : ℕ)
      → IsAccounted extra fs
      → i < fs.superblock.inode_count
      → occupied fs.inodes i ≡ false
      → acquire_inode_at device (some i) fs
        ≡ (flush device >> pure i) (inode_marked i true (fs.superblock.inodes_free - 1) fs)
  acquire_inode_found fs i a below clear = rw (
    lt→leb-false _ _ below,
    -u-ok _ _ (IsCounted-pos a.of_inodes i below clear),
    set-written fs.inodes i true a.of_inodes.valid (omega (arith, a.of_inodes.covers)),
  )

  -- How `acquire_inode` can end: with an error and no change where every inode is occupied, or with
  -- the first free inode, marked in the bitmap and taken from the count before the flush.
  pub data InodeAcquired (fs : Filesystem W) : Outcome ℕ × Filesystem W → Type 0 where
    exhausted :
        ((j : ℕ) → j < fs.superblock.inode_count → occupied fs.inodes j ≡ true)
        → InodeAcquired fs (err Error.out_of_memory, fs)
    taken :
        (i : ℕ)
        → i < fs.superblock.inode_count
        → occupied fs.inodes i ≡ false
        → ((j : ℕ) → j < i → occupied fs.inodes j ≡ true)
        → InodeAcquired fs
            ((flush device >> pure i) (inode_marked i true (fs.superblock.inodes_free - 1) fs))

  inode_acquired :
      {extra : ℕ} (fs : Filesystem W) {found : Option ℕ}
      → IsAccounted extra fs
      → FirstFree fs.inodes found
      → InodeAcquired fs (acquire_inode_at device found fs)
  inode_acquired fs a (FirstFree.full every) =
      InodeAcquired.exhausted
        (λ j h. every j (omega (arith, a.of_inodes.covers, a.of_inodes.valid.covers)))
  inode_acquired fs a (FirstFree.first i lt clear before) =
      elim (Bool-cases (leb fs.superblock.inode_count i)) [
        | inl beyond ↦ rw beyond (InodeAcquired.exhausted (λ j h. before j (omega tests)))
        | inr within ↦
            rw (acquire_inode_found fs i a (omega tests) clear)
              (InodeAcquired.taken i (omega tests) clear before)
      ]

  -- With the accounts in order, `acquire_inode` either fails with `OutOfMemory`, when all inodes are
  -- occupied, and changes nothing, or it takes the first free inode: it is marked in the bitmap, one
  -- is taken from the count, the filesystem is flushed, and its index is returned if that succeeds.
  pub acquire_inode-InodeAcquired :
      {extra : ℕ} (fs : Filesystem W)
      → IsAccounted extra fs
      → InodeAcquired fs (acquire_inode device fs)
  unfolding acquire_inode
  acquire_inode-InodeAcquired fs a = inode_acquired fs a (next_free-FirstFree fs.inodes)

  -- How `release_inode` can end: refused without a change where the index is out of range or free
  -- already, or cleared in the bitmap and added to the count before the flush.
  pub data InodeReleased (fs : Filesystem W) (i : ℕ)
      : Outcome (Unit {0}) × Filesystem W → Type 0 where
    beyond :
        fs.superblock.inode_count ≤ i
        → InodeReleased fs i
            (err (if i == null_block then Error.null_block else Error.out_of_bounds), fs)
    free_already :
        i < fs.superblock.inode_count
        → occupied fs.inodes i ≡ false
        → InodeReleased fs i (err Error.double_release, fs)
    given :
        i < fs.superblock.inode_count
        → occupied fs.inodes i ≡ true
        → InodeReleased fs i
            (flush device (inode_marked i false (fs.superblock.inodes_free + 1) fs))

  release_inode_used :
      {extra : ℕ} (fs : Filesystem W) (i : ℕ)
      → IsAccounted extra fs
      → i < fs.superblock.inode_count
      → occupied fs.inodes i ≡ true
      → release_inode device i fs
        ≡ flush device (inode_marked i false (fs.superblock.inodes_free + 1) fs)
  unfolding release_inode
  release_inode_used fs i a below used = rw (
    get_lem fs.inodes i a.of_inodes.valid (omega (arith, a.of_inodes.covers)),
    used,
    +u-ok _ _ (IsCounted-room a.of_inodes i below used),
    set-written fs.inodes i false a.of_inodes.valid (omega (arith, a.of_inodes.covers)),
  )

  -- With the accounts in order, `release_inode` refuses an index beyond the count and an inode that is
  -- free, and changes nothing then; otherwise it clears the inode in the bitmap, adds one to the
  -- count, and ends as the flush that follows.
  pub release_inode-InodeReleased :
      {extra : ℕ} (fs : Filesystem W) (i : ℕ)
      → IsAccounted extra fs
      → InodeReleased fs i (release_inode device i fs)
  unfolding release_inode
  release_inode-InodeReleased fs i a = elim (Bool-cases (leb fs.superblock.inode_count i)) [
    | inl out ↦
        rw (get_beyond fs.inodes i (omega (tests, a.of_inodes.covers)))
          (InodeReleased.beyond (omega tests))
    | inr within ↦ elim (Bool-cases (occupied fs.inodes i)) [
      | inl used ↦
          rw (release_inode_used fs i a (omega tests) used) (InodeReleased.given (omega tests) used)
      | inr clear ↦
          rw (get_lem fs.inodes i a.of_inodes.valid (omega (tests, a.of_inodes.covers)), clear)
            (InodeReleased.free_already (omega tests) clear)
    ]
  ]

  -- Whatever the device answers, `acquire_inode` keeps the accounts: the bitmaps are valid, the free
  -- count of the blocks is the number of free blocks, and that of the inodes is above the number of
  -- free inodes by the same `extra` as before.
  pub acquire_inode-IsAccounted :
      {extra : ℕ} (fs : Filesystem W)
      → IsAccounted extra fs
      → IsAccounted extra (after (acquire_inode device fs))
  acquire_inode-IsAccounted {extra = extra} fs a = kept (acquire_inode-InodeAcquired fs a)
    where
      kept : {r : Outcome ℕ × Filesystem W} → InodeAcquired fs r → IsAccounted extra (after r)
      kept (InodeAcquired.exhausted all) = a
      kept (InodeAcquired.taken i below clear before) =
          let fs' = inode_marked i true (fs.superblock.inodes_free - 1) fs in
          rw (after-pure i (flush device fs').0 (flush device fs').1) (
            inode_marked-IsAccounted i (fs.superblock.inodes_free - 1) true fs
              (after (flush device fs')) a (IsCounted-take a.of_inodes i below clear)
              (flush-Kept device fs'))

  -- Whatever the device answers, `release_inode` of any index keeps the accounts, with the same
  -- `extra` in the count of the inodes.
  pub release_inode-IsAccounted :
      {extra : ℕ} (fs : Filesystem W) (i : ℕ)
      → IsAccounted extra fs
      → IsAccounted extra (after (release_inode device i fs))
  release_inode-IsAccounted {extra = extra} fs i a = kept (release_inode-InodeReleased fs i a)
    where
      kept :
          {r : Outcome (Unit {0}) × Filesystem W}
          → InodeReleased fs i r
          → IsAccounted extra (after r)
      kept (InodeReleased.beyond out) = a
      kept (InodeReleased.free_already within clear) = a
      kept (InodeReleased.given below used) =
          let fs' = inode_marked i false (fs.superblock.inodes_free + 1) fs in
          inode_marked-IsAccounted i (fs.superblock.inodes_free + 1) false fs
            (after (flush device fs')) a (IsCounted-give a.of_inodes i below used)
            (flush-Kept device fs')
