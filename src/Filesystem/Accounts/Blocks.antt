-- ===== src/Filesystem/Accounts/Blocks.antt =====
-- Acquiring and releasing a block.
use ftn_tananfs.Base.{
  ℕ, ◌+◌, ◌-◌, ◌≤◌, ◌<◌, ◌≡◌, arith, tests, Bool, true, false, leb, ◌==◌, Bool-cases, inl, inr,
  if◌then◌else◌, Option, some, lt→leb-false,
}
use ftn_tananfs.Error.{Error}
use ftn_tananfs.Outcome.{Outcome, err, -u-ok, +u-ok}
use ftn_tananfs.Outcome.Action.{pure, ◌>>◌}
use ftn_tananfs.Structs.{null_block}
use ftn_tananfs.Bitmap.Bits.{occupied, written, get_lem, set-written}
use ftn_tananfs.Bitmap.NextFree.{FirstFree, next_free-FirstFree}
use ftn_tananfs.Device.{Device}
use ftn_tananfs.Filesystem.{Filesystem}
use ftn_tananfs.Filesystem.Flushing.{flush}
use ftn_tananfs.Filesystem.Allocator.{acquire_block, acquire_block_at, release_block}
use ftn_tananfs.Filesystem.Accounts.{IsCounted, IsAccounted}
use ftn_tananfs.Filesystem.Accounts.Frame.{Kept, after, after-pure, flush-Kept}
use ftn_tananfs.Filesystem.Accounts.Counted.{
  IsCounted-take, IsCounted-give, IsCounted-pos, IsCounted-room, get_beyond,
}

module _ {W : Type 0} where
  -- What `acquire_block` and `release_block` have written when they flush
  abbrev pub block_marked : ℕ → Bool → ℕ → Filesystem W → Filesystem W
  block_marked i value free fs = record fs {
    superblock = record fs.superblock { blocks_free = free };
    blocks = written fs.blocks i value;
  }

  block_marked-IsAccounted :
      {extra : ℕ} (i free : ℕ) (value : Bool) (fs fs' : Filesystem W)
      → IsAccounted extra fs
      → IsCounted 0 fs.superblock.block_count free (written fs.blocks i value)
      → Kept (block_marked i value free fs) fs'
      → IsAccounted extra fs'
  block_marked-IsAccounted i free value fs fs' a c kept = record {
    of_inodes = rw (kept.superblock, kept.inodes) a.of_inodes;
    of_blocks = rw (kept.superblock, kept.blocks) c;
  }

module _ {W : Type 0} (device : Device W) where
  acquire_block_found :
      {extra : ℕ} (fs : Filesystem W) (i : ℕ)
      → IsAccounted extra fs
      → i < fs.superblock.block_count
      → occupied fs.blocks i ≡ false
      → acquire_block_at device (some i) fs
        ≡ (flush device >> pure i) (block_marked i true (fs.superblock.blocks_free - 1) fs)
  acquire_block_found fs i a below clear = rw (
    lt→leb-false _ _ below,
    -u-ok _ _ (IsCounted-pos a.of_blocks i below clear),
    set-written fs.blocks i true a.of_blocks.valid (omega (arith, a.of_blocks.covers)),
  )

  -- How `acquire_block` can end: with an error and no change where every block is occupied, or with
  -- the first free block, marked in the bitmap and taken from the count before the flush.
  pub data BlockAcquired (fs : Filesystem W) : Outcome ℕ × Filesystem W → Type 0 where
    exhausted :
        ((j : ℕ) → j < fs.superblock.block_count → occupied fs.blocks j ≡ true)
        → BlockAcquired fs (err Error.out_of_memory, fs)
    taken :
        (i : ℕ)
        → i < fs.superblock.block_count
        → occupied fs.blocks i ≡ false
        → ((j : ℕ) → j < i → occupied fs.blocks j ≡ true)
        → BlockAcquired fs
            ((flush device >> pure i) (block_marked i true (fs.superblock.blocks_free - 1) fs))

  block_acquired :
      {extra : ℕ} (fs : Filesystem W) {found : Option ℕ}
      → IsAccounted extra fs
      → FirstFree fs.blocks found
      → BlockAcquired fs (acquire_block_at device found fs)
  block_acquired fs a (FirstFree.full every) =
      BlockAcquired.exhausted
        (λ j h. every j (omega (arith, a.of_blocks.covers, a.of_blocks.valid.covers)))
  block_acquired fs a (FirstFree.first i lt clear before) =
      elim (Bool-cases (leb fs.superblock.block_count i)) [
        | inl beyond ↦ rw beyond (BlockAcquired.exhausted (λ j h. before j (omega tests)))
        | inr within ↦
            rw (acquire_block_found fs i a (omega tests) clear)
              (BlockAcquired.taken i (omega tests) clear before)
      ]

  -- With the accounts in order, `acquire_block` either fails with `OutOfMemory`, when all blocks are
  -- occupied, and changes nothing, or it takes the first free block: it is marked in the bitmap, one
  -- is taken from the count, the filesystem is flushed, and its index is returned if that succeeds.
  pub acquire_block-BlockAcquired :
      {extra : ℕ} (fs : Filesystem W)
      → IsAccounted extra fs
      → BlockAcquired fs (acquire_block device fs)
  unfolding acquire_block
  acquire_block-BlockAcquired fs a = block_acquired fs a (next_free-FirstFree fs.blocks)

  -- How `release_block` can end: refused without a change where the index is out of range or free
  -- already, or cleared in the bitmap and added to the count before the flush.
  pub data BlockReleased (fs : Filesystem W) (i : ℕ)
      : Outcome (Unit {0}) × Filesystem W → Type 0 where
    beyond :
        fs.superblock.block_count ≤ i
        → BlockReleased fs i
            (err (if i == null_block then Error.null_block else Error.out_of_bounds), fs)
    free_already :
        i < fs.superblock.block_count
        → occupied fs.blocks i ≡ false
        → BlockReleased fs i (err Error.double_release, fs)
    given :
        i < fs.superblock.block_count
        → occupied fs.blocks i ≡ true
        → BlockReleased fs i
            (flush device (block_marked i false (fs.superblock.blocks_free + 1) fs))

  release_block_used :
      {extra : ℕ} (fs : Filesystem W) (i : ℕ)
      → IsAccounted extra fs
      → i < fs.superblock.block_count
      → occupied fs.blocks i ≡ true
      → release_block device i fs
        ≡ flush device (block_marked i false (fs.superblock.blocks_free + 1) fs)
  unfolding release_block
  release_block_used fs i a below used = rw (
    get_lem fs.blocks i a.of_blocks.valid (omega (arith, a.of_blocks.covers)),
    used,
    +u-ok _ _ (IsCounted-room a.of_blocks i below used),
    set-written fs.blocks i false a.of_blocks.valid (omega (arith, a.of_blocks.covers)),
  )

  -- With the accounts in order, `release_block` refuses an index beyond the count and a block that is
  -- free, and changes nothing then; otherwise it clears the block in the bitmap, adds one to the
  -- count, and ends as the flush that follows.
  pub release_block-BlockReleased :
      {extra : ℕ} (fs : Filesystem W) (i : ℕ)
      → IsAccounted extra fs
      → BlockReleased fs i (release_block device i fs)
  unfolding release_block
  release_block-BlockReleased fs i a = elim (Bool-cases (leb fs.superblock.block_count i)) [
    | inl out ↦
        rw (get_beyond fs.blocks i (omega (tests, a.of_blocks.covers)))
          (BlockReleased.beyond (omega tests))
    | inr within ↦ elim (Bool-cases (occupied fs.blocks i)) [
      | inl used ↦
          rw (release_block_used fs i a (omega tests) used) (BlockReleased.given (omega tests) used)
      | inr clear ↦
          rw (get_lem fs.blocks i a.of_blocks.valid (omega (tests, a.of_blocks.covers)), clear)
            (BlockReleased.free_already (omega tests) clear)
    ]
  ]

  -- Whatever the device answers, `acquire_block` keeps the accounts: the bitmaps are valid, the free
  -- count of the blocks is the number of free blocks, and that of the inodes is above the number of
  -- free inodes by the same `extra` as before.
  pub acquire_block-IsAccounted :
      {extra : ℕ} (fs : Filesystem W)
      → IsAccounted extra fs
      → IsAccounted extra (after (acquire_block device fs))
  acquire_block-IsAccounted {extra = extra} fs a = kept (acquire_block-BlockAcquired fs a)
    where
      kept : {r : Outcome ℕ × Filesystem W} → BlockAcquired fs r → IsAccounted extra (after r)
      kept (BlockAcquired.exhausted all) = a
      kept (BlockAcquired.taken i below clear before) =
          let fs' = block_marked i true (fs.superblock.blocks_free - 1) fs in
          rw (after-pure i (flush device fs').0 (flush device fs').1) (
            block_marked-IsAccounted i (fs.superblock.blocks_free - 1) true fs
              (after (flush device fs')) a (IsCounted-take a.of_blocks i below clear)
              (flush-Kept device fs'))

  -- Whatever the device answers, `release_block` of any index keeps the accounts, with the same
  -- `extra` in the count of the inodes.
  pub release_block-IsAccounted :
      {extra : ℕ} (fs : Filesystem W) (i : ℕ)
      → IsAccounted extra fs
      → IsAccounted extra (after (release_block device i fs))
  release_block-IsAccounted {extra = extra} fs i a = kept (release_block-BlockReleased fs i a)
    where
      kept :
          {r : Outcome (Unit {0}) × Filesystem W}
          → BlockReleased fs i r
          → IsAccounted extra (after r)
      kept (BlockReleased.beyond out) = a
      kept (BlockReleased.free_already within clear) = a
      kept (BlockReleased.given below used) =
          let fs' = block_marked i false (fs.superblock.blocks_free + 1) fs in
          block_marked-IsAccounted i (fs.superblock.blocks_free + 1) false fs
            (after (flush device fs')) a (IsCounted-give a.of_blocks i below used)
            (flush-Kept device fs')
