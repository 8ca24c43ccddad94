-- ===== src/Main.antt =====
-- src/main.rs: how the program finds or makes the filesystem that it mounts.
pub mod Detection
pub mod Remount
pub mod Fresh
use ftn_tananfs.Base.{ℕ, Option, none, some, List, get_elem?}
use ftn_tananfs.Outcome.{Outcome, ok, err, panic, ◌>>=◌}
use ftn_tananfs.Structs.{default_block_size}
use ftn_tananfs.Device.{Device}
use ftn_tananfs.Filesystem.{Filesystem}
use ftn_tananfs.Filesystem.Mount.{new, load, detect_existing}

-- `let Some(…) = args.get(i) else { help(); panic!(…) }`
abbrev required : List (List ℕ) → ℕ → Outcome (List ℕ)
required args i = elim (get_elem? args i) [ none ↦ panic | some path ↦ ok path ]

-- The block size for a new filesystem, given `str::parse::<u32>`
unfoldable pub requested : (List ℕ → Option ℕ) → List (List ℕ) → ℕ
requested parse args = elim (get_elem? args 3) [
  | none ↦ default_block_size
  | some value ↦ elim (parse value) [ none ↦ default_block_size | some n ↦ n ]
]

module _ {W : Type 0} (device : Device W) where
  -- What `main` does with the result of `detect_existing`
  unfoldable pub existing_or_new : Outcome (Option ℕ) → ℕ → ℕ → W → Outcome (Filesystem W)
  existing_or_new (ok (some detected)) capacity block_size w = load device detected w
  existing_or_new (ok none) capacity block_size w = new capacity block_size w
  existing_or_new (err e) capacity block_size w = err e
  existing_or_new panic capacity block_size w = panic

  -- `main`, from the opened device to the filesystem that it hands to `fuser::mount2`, given
  -- `metadata()?.size()` of the device. The new filesystem is made on the device as detection left it.
  unfoldable pub start :
      (List ℕ → Option ℕ) → (W → Outcome ℕ) → List (List ℕ) → W → Outcome (Filesystem W)
  unfolding requested
  start parse metadata_size args w = required args 1 >>= λ device_path.
      required args 2 >>= λ mount_path. metadata_size w >>= λ capacity.
      let (found, w') = detect_existing device w in
      existing_or_new found capacity (requested parse args) w'
