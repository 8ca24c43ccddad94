-- ===== src/Main/Remount.antt =====
-- A device that was flushed is mounted as it was.
use native.Mathlib.Nat.{pow-le-pow_right, pow-suc}
use ftn_tananfs.Base.{
  ℕ, suc, ◌+◌, ◌^◌, ◌≤◌, ◌<◌, ◌≡◌, ◌≢◌, sym, ap, ◌∙◌, arith, some, Option, List, length, take, drop,
  length-take, length-drop, take-append-drop, drop-drop,
}
use ftn_tananfs.Outcome.{Outcome, ok}
use ftn_tananfs.Structs.{Superblock, magic_signature}
use ftn_tananfs.Structs.Packed.{SuperblockFits, superblock_bytes, length-superblock_bytes, magic_at}
use ftn_tananfs.Superblock.Regions.{Regions}
use ftn_tananfs.Word.Bytes.{from_le}
use ftn_tananfs.Device.{Device}
use ftn_tananfs.Device.Holds.{Holds, cut_front}
use ftn_tananfs.Device.Memory.{IsMemory}
use ftn_tananfs.Filesystem.{Filesystem, Store}
use ftn_tananfs.Filesystem.Flushing.{force_flush}
use ftn_tananfs.Filesystem.Persistence.Sound.{IsSound}
use ftn_tananfs.Filesystem.Persistence.Flush.{force_flush-IsOn}
use ftn_tananfs.Filesystem.Persistence.CacheFlush.{BootKept}
use ftn_tananfs.Filesystem.Persistence.Load.{reloaded, load-IsOn}
use ftn_tananfs.Device.Images.{IsImage-of}
use ftn_tananfs.Main.{start, existing_or_new}
use ftn_tananfs.Main.Detection.{signature_at, detect_existing-first, start_found}

-- A signature that is looked for in the boot sector
signature-kept :
    (p block_size : ℕ) (xs ys : List ℕ)
    → 2 ^ p + 64 ≤ block_size
    → block_size ≤ length xs
    → BootKept block_size xs ys
    → signature_at p ys ≡ signature_at p xs
signature-kept p block_size xs ys h room kept =
    let at = 2 ^ p + 0x38 in
    let bs = take 8 (drop at xs) in
    let len : length bs ≡ 8 =
      omega (arith, h, room, length-take {0} 8 (drop at xs), length-drop {0} at xs) in
    let stands : take (length bs) (drop at ys) ≡ bs =
      kept at bs (omega (arith, h, len)) (ap (λ n. take n (drop at xs)) len) in
    ap from_le (ap (λ n. take n (drop at ys)) (sym len) ∙ stands)

module _ {W : Type 0} {device : Device W} (memory : IsMemory device) where
  -- The superblock has its signature where `detect_existing` looks for it.
  signature_at-superblock :
      (s : Superblock) (pow : ℕ) (xs : List ℕ)
      → SuperblockFits s
      → s.block_size ≡ 2 ^ pow
      → Holds s.block_size (superblock_bytes s) xs
      → signature_at pow xs ≡ s.magic
  signature_at-superblock s pow xs fits size h =
      let head = superblock_bytes s in
      let len = length-superblock_bytes s fits in
      let ys = drop s.block_size xs in
      let e : 2 ^ pow + 56 ≡ s.block_size + 56 = omega (arith, size) in
      let front : take 8 (drop 56 (take (length head) ys)) ≡ take 8 (drop 56 ys) =
        sym (
          cut_front 56 8 (take (length head) ys) (drop (length head) ys)
            (rw h (omega (arith, len))))
        ∙ ap (λ t. take 8 (drop 56 t)) (take-append-drop {0} (length head) ys) in
      ap (λ i. from_le (take 8 (drop i xs))) e
      ∙ ap (λ t. from_le (take 8 t)) (sym (drop-drop 56 s.block_size xs))
      ∙ ap from_le (sym front)
      ∙ ap (λ t. from_le (take 8 (drop 56 t))) h
      ∙ magic_at s fits

  -- With a device that does not fail, is as large as the layout, and has no signature in its boot
  -- sector where one is looked for: after `force_flush`, `main` with any block size finds the
  -- filesystem, and hands the same superblock and the same bitmaps to FUSE.
  pub start-force_flush :
      (fs : Filesystem W) (r : Regions fs.superblock) (pow : ℕ) (parse : List ℕ → Option ℕ)
      (metadata_size : W → Outcome ℕ) (args : List (List ℕ))
      → IsSound fs r
      → r.end ≤ length (memory.content fs.store.world)
      → fs.superblock.magic ≡ magic_signature
      → fs.superblock.block_size ≡ 2 ^ pow
      → 9 ≤ pow
      → pow ≤ 12
      → ((p : ℕ)
          → p < pow
          → 9 ≤ p
          → signature_at p (memory.content fs.store.world) ≢ magic_signature)
      → ((w : W) → (n : ℕ) × (metadata_size w ≡ ok n))
      → 3 ≤ length args
      → (store : Store W) × (w : W) × (force_flush device fs ≡ (ok tt, record fs { store = store }))
        × (start device parse metadata_size args store.world ≡ ok (reloaded fs w))
  unfolding existing_or_new
  start-force_flush fs r pow parse metadata_size args sound room magic size least most clear known
        given =
      let (image, i) = IsImage-of fs.inodes r.inode_bitmap sound.inodes in
      let (image', j) = IsImage-of fs.blocks r.block_bitmap sound.blocks in
      let (store, run, len, on, boot) = force_flush-IsOn memory fs r sound image image' i j room in
      let room' : r.end ≤ length (memory.content store.world) = omega (arith, len, room) in
      let (w1, found, same) =
        detect_existing-first memory pow store.world least most
          (λ p h q e. clear p h q (
            sym (
              signature-kept p fs.superblock.block_size (memory.content fs.store.world)
                (memory.content store.world) (boot_room p h q)
                (omega (
                  arith, room, r.behind_superblock, r.inodes_aligned.reaches,
                  r.blocks_aligned.reaches, r.end_is,
                ))
                boot)
            ∙ e))
          (signature_at-superblock fs.superblock pow (memory.content store.world) sound.fits size
              on.superblock
            ∙ magic)
          (omega (
            arith, size, room', r.behind_superblock, r.inodes_aligned.reaches,
            r.blocks_aligned.reaches, r.end_is,
          )) in
      let (w2, read, same') =
        load-IsOn memory fs r sound image image' w1 i j (rw same on) (rw same room') in
      let (n, size_known) = known store.world in
      (
        store,
        w2,
        run,
        start_found memory parse metadata_size args n (ok (some fs.superblock.block_size))
              store.world w1 given size_known (found ∙ ap (λ b. (ok (some b), w1)) (sym size))
            ∙ read,
      )
    where
      boot_room : (p : ℕ) → p < pow → 9 ≤ p → 2 ^ p + 64 ≤ fs.superblock.block_size
      boot_room p h q =
          let more = pow-le-pow_right {n = 2} (omega arith) {i = 9} {j = p} q in
          let le = pow-le-pow_right {n = 2} (omega arith) {i = suc p} {j = pow} h in
          omega (arith, more, le, pow-suc 2 p, size)
