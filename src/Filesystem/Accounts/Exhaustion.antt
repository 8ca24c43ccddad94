-- ===== src/Filesystem/Accounts/Exhaustion.antt =====
-- Acquiring blocks until there are none left.
use ftn_tananfs.Base.{
  ℕ, zero, suc, ◌-◌, ◌<◌, ◌≡◌, ◌≢◌, refl, sym, ap, ◌∙◌, arith, ◌==◌, eq→==, ne→==-false, true,
  false, List, [], ◌∷◌, length, IsAmiss, IsDistinct,
}
use ftn_tananfs.Error.{Error}
use ftn_tananfs.Outcome.{Outcome, ok, err}
use ftn_tananfs.Structs.{Bitmap}
use ftn_tananfs.Bitmap.Bits.{occupied, written, occupied-written}
use ftn_tananfs.Bitmap.Free.{free_below_none}
use ftn_tananfs.Device.{Device}
use ftn_tananfs.Filesystem.{Filesystem}
use ftn_tananfs.Filesystem.Allocator.{acquire_block}
use ftn_tananfs.Filesystem.Quiet.{IsQuiet, flush-quiet}
use ftn_tananfs.Filesystem.Accounts.{IsAccounted}
use ftn_tananfs.Filesystem.Accounts.Counted.{IsCounted-pos, IsCounted-take}
use ftn_tananfs.Filesystem.Accounts.Blocks.{
  BlockAcquired, block_marked, acquire_block-BlockAcquired,
}

apart : (b : Bitmap) {i : ℕ} (j : ℕ) → occupied b j ≡ true → occupied b i ≡ false → j ≢ i
apart b j used clear e = let h : true ≡ false = sym used ∙ ap (occupied b) e ∙ clear in cc

module _ {W : Type 0} (device : Device W) where
  -- A call of `acquire_block` that gave `i`
  record Gave (extra : ℕ) (fs : Filesystem W) (i : ℕ) (out : Outcome ℕ × Filesystem W)
      (fs' : Filesystem W) : Type 0 where
    ends : out ≡ (ok i, fs')
    below : i < fs.superblock.block_count
    clear : occupied fs.blocks i ≡ false
    marked : fs'.blocks ≡ written fs.blocks i true
    free : fs'.superblock.blocks_free ≡ fs.superblock.blocks_free - 1
    accounted : IsAccounted extra fs'
    quiet : IsQuiet device fs'

  gives :
      {extra : ℕ} (fs : Filesystem W) (out : Outcome ℕ × Filesystem W)
      → IsAccounted extra fs
      → IsQuiet device fs
      → 0 < fs.superblock.blocks_free
      → BlockAcquired device fs out
      → (i : ℕ) × (fs' : Filesystem W) × Gave extra fs i out fs'
  gives fs out a q some_left (BlockAcquired.exhausted every) =
      absurd (
        omega
          (arith, a.of_blocks.counts, free_below_none fs.superblock.block_count fs.blocks every))
  gives {extra} fs out a q some_left (BlockAcquired.taken i below clear before) =
      let mid = block_marked i true (fs.superblock.blocks_free - 1) fs in
      (
        i,
        record mid { store = record mid.store { world = (device.now mid.store.world).1 } },
        record {
          ends =
              rw
                (flush-quiet device mid
                  (record { last = q.last; stamped = q.stamped; recent = q.recent }))
                refl;
          below = below;
          clear = clear;
          marked = refl;
          free = refl;
          accounted = record {
            of_inodes = a.of_inodes;
            of_blocks = IsCounted-take a.of_blocks i below clear;
          };
          quiet = record { last = q.last; stamped = q.stamped; recent = q.recent };
        },
      )

  refuses :
      {extra : ℕ} (fs : Filesystem W) (out : Outcome ℕ × Filesystem W)
      → IsAccounted extra fs
      → fs.superblock.blocks_free ≡ 0
      → BlockAcquired device fs out
      → out ≡ (err Error.out_of_memory, fs)
  refuses fs out a none_left (BlockAcquired.exhausted every) = refl
  refuses fs out a none_left (BlockAcquired.taken i below clear before) =
      absurd (omega (arith, none_left, IsCounted-pos a.of_blocks i below clear))

  -- Calls of `acquire_block` one after the other, that gave these indices
  pub data Acquires : List ℕ → Filesystem W → Filesystem W → Type 0 where
    none_more : {fs : Filesystem W} → Acquires [] fs fs
    one_more :
        {i : ℕ} {is : List ℕ} {fs fs' fs'' : Filesystem W}
        → acquire_block device fs ≡ (ok i, fs')
        → Acquires is fs' fs''
        → Acquires (i ∷ is) fs fs''

  Acquires-all :
      {extra : ℕ} (n : ℕ) (fs : Filesystem W)
      → IsAccounted extra fs
      → IsQuiet device fs
      → fs.superblock.blocks_free ≡ n
      → (is : List ℕ) × (fs' : Filesystem W) × Acquires is fs fs'
        × (length is ≡ n)
        × IsDistinct is
        × ((j : ℕ) → occupied fs.blocks j ≡ true → IsAmiss j is)
        × (acquire_block device fs' ≡ (err Error.out_of_memory, fs'))
  Acquires-all zero fs a q left = (
    [],
    fs,
    Acquires.none_more,
    refl,
    IsDistinct.none_left,
    λ j h. IsAmiss.none_left,
    refuses fs _ a left (acquire_block-BlockAcquired device fs a),
  )
  Acquires-all (suc n) fs a q left =
      let (i, fs', g) =
        gives fs _ a q (omega (arith, left)) (acquire_block-BlockAcquired device fs a) in
      let (is, fs'', later, len, distinct, amiss, over) =
        Acquires-all n fs' g.accounted g.quiet (omega (arith, g.free, left)) in
      let put = λ (j : ℕ).
        occupied-written fs.blocks i j true a.of_blocks.valid
          (omega (arith, g.below, a.of_blocks.covers)) in
      let now_used : (j : ℕ) → occupied (written fs.blocks i true) j ≡ true → IsAmiss j is =
        λ j h. amiss j (ap (λ b. occupied b j) g.marked ∙ h) in
      (
        i ∷ is,
        fs'',
        Acquires.one_more g.ends later,
        omega (arith, len),
        IsDistinct.one_more (now_used i (put i ∙ rw (eq→== i i refl) refl)) distinct,
        λ j h.
            let other : (j == i) ≡ false = ne→==-false j i (apart fs.blocks j h g.clear) in
            IsAmiss.one_more (apart fs.blocks j h g.clear) (now_used j (put j ∙ rw other h)),
        over,
      )

  -- With the accounts in order and while no flush is due: `acquire_block`, called as often as the
  -- superblock counts free blocks, gives a block each time, all of them different and none of them
  -- occupied before, and the next call fails with `OutOfMemory` and changes nothing.
  pub acquire_block-Acquires :
      {extra : ℕ} (fs : Filesystem W)
      → IsAccounted extra fs
      → IsQuiet device fs
      → (is : List ℕ) × (fs' : Filesystem W) × Acquires is fs fs'
        × (length is ≡ fs.superblock.blocks_free)
        × IsDistinct is
        × ((j : ℕ) → occupied fs.blocks j ≡ true → IsAmiss j is)
        × (acquire_block device fs' ≡ (err Error.out_of_memory, fs'))
  acquire_block-Acquires fs a q = Acquires-all fs.superblock.blocks_free fs a q refl
