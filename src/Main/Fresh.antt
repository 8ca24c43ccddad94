-- ===== src/Main/Fresh.antt =====
-- A device without a filesystem is formatted.
use ftn_tananfs.Base.{
  ℕ, ◌+◌, ◌^◌, ◌≤◌, ◌≡◌, ◌≢◌, refl, ◌∙◌, ap, arith, none, some, Option, List, [], ◌∷◌, length,
}
use ftn_tananfs.Outcome.{Outcome, ok}
use ftn_tananfs.Structs.{magic_signature}
use ftn_tananfs.Superblock.Layout.{IsBlockSize, IsDevice}
use ftn_tananfs.Device.{Device}
use ftn_tananfs.Device.Memory.{IsMemory}
use ftn_tananfs.Filesystem.{Filesystem}
use ftn_tananfs.Filesystem.Mount.{new}
use ftn_tananfs.Filesystem.Accounts.{IsAccounted}
use ftn_tananfs.Filesystem.Accounts.Fresh.{new-made}
use ftn_tananfs.Main.{start, existing_or_new, requested}
use ftn_tananfs.Main.Detection.{signature_at, detect_existing-none, start_found}

-- The command line of the program, which is its name, a device and a mount point, asks for blocks of
-- the size that stands behind these, or of 4096 bytes where nothing does, or nothing that is a number.
pub data Asks (parse : List ℕ → Option ℕ) : List (List ℕ) → ℕ → Type 0 where
  left_out : {program device mount : List ℕ} → Asks parse (program ∷ device ∷ mount ∷ []) 4096
  unreadable :
      {program device mount value : List ℕ} {rest : List (List ℕ)}
      → parse value ≡ none
      → Asks parse (program ∷ device ∷ mount ∷ value ∷ rest) 4096
  given :
      {program device mount value : List ℕ} {rest : List (List ℕ)} {block_size : ℕ}
      → parse value ≡ some block_size
      → Asks parse (program ∷ device ∷ mount ∷ value ∷ rest) block_size

requested-Asks :
    (parse : List ℕ → Option ℕ) (args : List (List ℕ)) (b : ℕ)
    → Asks parse args b
    → requested parse args ≡ b
unfolding requested
requested-Asks parse args b Asks.left_out = refl
requested-Asks parse args b (Asks.unreadable none_read) = rw none_read refl
requested-Asks parse args b (Asks.given read) = rw read refl

length-Asks :
    (parse : List ℕ → Option ℕ) (args : List (List ℕ)) (b : ℕ) → Asks parse args b → 3 ≤ length args
length-Asks parse args b Asks.left_out = omega arith
length-Asks parse args b (Asks.unreadable none_read) = omega arith
length-Asks parse args b (Asks.given read) = omega arith

module _ {W : Type 0} {device : Device W} (memory : IsMemory device) where
  -- With a device that does not fail, has 64 KiB to 2 ^ 62 bytes by its metadata and holds at least
  -- 4160, with the signature of no superblock for a block size of 512, 1024, 2048 or 4096 bytes, and a
  -- command line that asks for one of these sizes (4096 where the argument is missing or is not a
  -- number): `main` does not fail. It hands over the filesystem that `Filesystem::new` makes for the
  -- size of the device, with that block size, its accounts in order and all inodes and blocks free,
  -- and what is on the device is as before.
  pub start-new :
      (parse : List ℕ → Option ℕ) (metadata_size : W → Outcome ℕ) (args : List (List ℕ)) (n b : ℕ)
      (w : W)
      → Asks parse args b
      → IsBlockSize b
      → IsDevice n b
      → metadata_size w ≡ ok n
      → 2 ^ 12 + 64 ≤ length (memory.content w)
      → ((p : ℕ) → 9 ≤ p → p ≤ 12 → signature_at p (memory.content w) ≢ magic_signature)
      → (fs : Filesystem W) × (w' : W) × (start device parse metadata_size args w ≡ ok fs)
        × (new n b w' ≡ ok fs)
        × (fs.superblock.block_size ≡ b)
        × IsAccounted 0 fs
        × (fs.superblock.blocks_free ≡ fs.superblock.block_count)
        × (fs.superblock.inodes_free ≡ fs.superblock.inode_count)
        × (fs.store.world ≡ w')
        × (memory.content w' ≡ memory.content w)
  unfolding existing_or_new
  start-new parse metadata_size args n b w asks size fine known room clear =
      let (w', found, same) = detect_existing-none memory w room clear in
      let (fs, made, accounts, blocks, inodes, store, modest, block_size) =
        new-made w' n b fine size in
      (
        fs,
        w',
        start_found memory parse metadata_size args n (ok none) w w' (length-Asks parse args b asks)
              known found
            ∙ ap (λ k. new n k w') (requested-Asks parse args b asks)
            ∙ made,
        made,
        block_size,
        accounts,
        blocks,
        inodes,
        ap (λ s. s.world) store,
        same,
      )
