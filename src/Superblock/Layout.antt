-- ===== src/Superblock/Layout.antt =====
-- What the formatting of a device comes to: the regions fit the device, in order.
use native.Mathlib.Nat.{mod-lt, mod-add-div, mul-div-le, div-mul-le_self, lt-div-mul-add}
use ftn_tananfs.Base.{
  ℕ, ◌+◌, ◌-◌, ◌*◌, ◌/◌, ◌%◌, ◌^◌, ◌≤◌, ◌<◌, ◌≡◌, refl, ◌⊎◌, inl, inr, Bool-cases, arith, tests,
  ◌==◌,
}
use ftn_tananfs.Outcome.{ok, word, +u-ok, -u-ok, %u-ok}
use ftn_tananfs.Structs.{superblock_size, inode_size, data_per_inode}
use ftn_tananfs.Structs.Size.{size_in_bytes, size_in_bytes-IsBitmapSize, IsBitmapSize}
use ftn_tananfs.Superblock.{align_to_block_start, usable_capacity}

-- `512..=4096`, powers of two
abbrev pub IsBlockSize : ℕ → Type 0
IsBlockSize b = (b ≡ 512) ⊎ ((b ≡ 1024) ⊎ ((b ≡ 2048) ⊎ (b ≡ 4096)))

-- `q` is the first multiple of `b` from `p` on.
pub record IsAligned (b p q : ℕ) : Type 0 where
  pub blocks : ℕ
  pub multiple : q ≡ b * blocks
  pub reaches : p ≤ q
  pub near : q < p + b

-- The position is rounded up to the first block boundary that is no less, for every block size
-- but 0, where position plus block size fits a word.
pub align_to_block_start-IsAligned :
    (p b : ℕ) → 0 < b → p + b < word → (q : ℕ) × (align_to_block_start p b ≡ ok q) × IsAligned b p q
unfolding align_to_block_start
align_to_block_start-IsAligned p b hb fits = elim (Bool-cases (p % b == 0)) [
  | inl e ↦ (
    p,
    rw (%u-ok p b hb, e),
    record {
      blocks = p / b;
      multiple = omega (tests, mod-add-div p b);
      reaches = omega arith;
      near = omega arith;
    },
  )
  | inr ne ↦ (
    p + (b - p % b),
    rw (%u-ok p b hb, ne, -u-ok b (p % b) below) (+u-ok p (b - p % b) (omega arith)),
    record {
      blocks = p / b + 1;
      multiple = omega (tests, mod-add-div p b, below);
      reaches = omega arith;
      near = omega tests;
    },
  )
]
  where
    below : p % b ≤ b
    below = omega (arith, mod-lt p hb)

-- The quantities of `usable_capacity`, before any check.
abbrev pub behind_superblock : ℕ → ℕ → ℕ
behind_superblock capacity b = capacity - b - superblock_size

abbrev pub max_inodes : ℕ → ℕ → ℕ
max_inodes capacity b = behind_superblock capacity b / data_per_inode

abbrev pub max_blocks : ℕ → ℕ → ℕ
max_blocks capacity b = (behind_superblock capacity b - max_inodes capacity b * inode_size) / b

-- What `usable_capacity` computes on its way to `usable`.
pub record Usable (capacity b usable : ℕ) : Type 0 where
  pub inode_bitmap : ℕ
  pub block_bitmap : ℕ
  pub inode_bitmap_is : size_in_bytes (max_inodes capacity b) ≡ ok inode_bitmap
  pub block_bitmap_is : size_in_bytes (max_blocks capacity b) ≡ ok block_bitmap
  pub before : ℕ
  pub aligned :
      IsAligned b
        (b + superblock_size + (inode_bitmap + block_bitmap) + max_inodes capacity b * inode_size)
        before
  pub below : before ≤ capacity / b * b
  pub usable_is : usable ≡ capacity / b * b - before

-- A device of 64 KiB or more and a block size that the filesystem accepts.
pub record IsDevice (capacity b : ℕ) : Type 0 where
  pub least_block : 512 ≤ b
  pub most_block : b ≤ 4096
  pub large : 2 ^ 16 ≤ capacity
  pub small : capacity ≤ 2 ^ 62

module _ {capacity b : ℕ} (device : IsDevice capacity b) where
  pub blocks_le : (x : ℕ) → 512 * (x / b) ≤ x
  blocks_le x = omega (arith, mul-div-le x b, grow)
    where
      grow : 512 * (x / b) ≤ b * (x / b)
      grow = grind arith

  -- The checked operations of `usable_capacity`, one after the other.
  usable_run :
      (mi mb ib bb q : ℕ)
      → mi ≡ max_inodes capacity b
      → mb ≡ max_blocks capacity b
      → size_in_bytes mi ≡ ok ib
      → size_in_bytes mb ≡ ok bb
      → ib + bb ≤ 2 ^ 62
      → align_to_block_start (b + superblock_size + (ib + bb) + mi * inode_size) b ≡ ok q
      → q < capacity
      → q ≤ capacity / b * b
      → capacity / b * b ≤ capacity
      → usable_capacity capacity b ≡ ok (capacity / b * b - q)
  unfolding usable_capacity
  usable_run mi mb ib bb q mi_is mb_is ie be sum qe below fits whole = ground arith

  -- The bounds that every check of the chain comes down to.
  inodes_room : (ib : ℕ) → IsBitmapSize (max_inodes capacity b) ib → 4 * ib ≤ capacity / 4096 + 4096
  inodes_room ib size = omega arith

  blocks_room : (bb : ℕ) → IsBitmapSize (max_blocks capacity b) bb → 4 * bb ≤ capacity / 512 + 4096
  blocks_room bb size =
      omega (arith, blocks_le (behind_superblock capacity b - max_inodes capacity b * inode_size))

  Usable-from :
      (ib bb q : ℕ)
      → size_in_bytes (max_inodes capacity b) ≡ ok ib
      → size_in_bytes (max_blocks capacity b) ≡ ok bb
      → 4 * ib ≤ capacity / 4096 + 4096
      → 4 * bb ≤ capacity / 512 + 4096
      → align_to_block_start
          (b + superblock_size + (ib + bb) + max_inodes capacity b * inode_size)
          b
        ≡ ok q
      → IsAligned b (b + superblock_size + (ib + bb) + max_inodes capacity b * inode_size) q
      → (u : ℕ) × (usable_capacity capacity b ≡ ok u) × Usable capacity b u
  Usable-from ib bb q ie be isize bsize qe aligned =
      let whole_le = div-mul-le_self capacity b in
      let whole_lt = lt-div-mul-add {a = capacity} {b = b} (omega arith) in
      let fits : q ≤ capacity / b * b = omega arith in
      (
        capacity / b * b - q,
        usable_run (max_inodes capacity b) (max_blocks capacity b) ib bb q refl refl ie be
            (omega arith) qe (omega arith) fits whole_le,
        record {
          inode_bitmap = ib;
          block_bitmap = bb;
          inode_bitmap_is = ie;
          block_bitmap_is = be;
          before = q;
          aligned = aligned;
          below = fits;
          usable_is = refl;
        },
      )

  pub usable_capacity-Usable : (u : ℕ) × (usable_capacity capacity b ≡ ok u) × Usable capacity b u
  usable_capacity-Usable =
      let (ib, ie, isize) = size_in_bytes-IsBitmapSize (max_inodes capacity b) (omega arith) in
      let (bb, be, bsize) = size_in_bytes-IsBitmapSize (max_blocks capacity b) (
        omega
          (arith, blocks_le (behind_superblock capacity b - max_inodes capacity b * inode_size))) in
      let i = inodes_room ib isize in
      let j = blocks_room bb bsize in
      let (q, qe, aligned) =
        align_to_block_start-IsAligned
          (b + superblock_size + (ib + bb) + max_inodes capacity b * inode_size) b (omega arith)
          (omega arith) in
      Usable-from ib bb q ie be i j qe aligned
