-- ===== src/Superblock/Formatted.antt =====
-- What `Superblock::new` makes: a superblock whose regions follow one another on the device.
use native.Mathlib.Nat.{mul-div-le, le-div_iff_mul-le, mul-le-mul_left, div-mul-le_self}
use native.Mathlib.Decide.{dec_le}
use ftn_tananfs.Base.{
  ℕ, ◌+◌, ◌-◌, ◌*◌, ◌/◌, ◌%◌, ◌≤◌, ◌<◌, ◌≡◌, ap, ◌∙◌, inl, inr, arith, replicate,
}
use ftn_tananfs.Outcome.{ok}
use ftn_tananfs.Structs.{Superblock, superblock_size, inode_size, data_per_inode, magic_signature}
use ftn_tananfs.Structs.Size.{
  next_power_of_two, first_pow_from, size_in_bytes_mono, IsBitmapSize-of_ok,
}
use ftn_tananfs.Superblock.{usable_capacity, new}
use ftn_tananfs.Superblock.Layout.{
  IsBlockSize, IsDevice, Usable, max_inodes, max_blocks, behind_superblock, usable_capacity-Usable,
}
use ftn_tananfs.Superblock.Regions.{Regions, IsModest, IsModest-Regions}

abbrev pub formatted : ℕ → ℕ → Superblock
formatted b usable = record {
  inode_count = usable / data_per_inode;
  inodes_free = usable / data_per_inode;
  block_count = usable / b;
  blocks_free = usable / b;
  block_size = b;
  padding_1 = replicate 20 0;
  magic = magic_signature;
  padding_2 = replicate 960 0;
}

-- A block size that the filesystem accepts is a power of two.
pub rounds_to_self : (b : ℕ) → IsBlockSize b → next_power_of_two 32 b ≡ ok b
unfolding next_power_of_two first_pow_from
rounds_to_self b (inl e) = rw e
rounds_to_self b (inr (inl e)) = rw e
rounds_to_self b (inr (inr (inl e))) = rw e
rounds_to_self b (inr (inr (inr e))) = rw e

pub new_run :
    (capacity b u : ℕ)
    → IsBlockSize b
    → usable_capacity capacity b ≡ ok u
    → new capacity b ≡ ok (formatted b u)
unfolding new
new_run capacity b u h e = ground (arith, rounds_to_self b h)

-- Of two multiples of `b` less than `b` apart, the one is not past the other.
multiples_step : (b k m : ℕ) → b * k < b * m + b → b * k ≤ b * m
multiples_step b k m h = elim (dec_le k m) [
  | yes le ↦ mul-le-mul_left b le
  | no gt ↦ absurd (omega (arith, after (omega arith)))
]
  where
    after : m + 1 ≤ k → b * (m + 1) ≤ b * k
    after lt = mul-le-mul_left b lt

-- A boundary of small blocks that is reached exactly.
aligned_exact :
    (b i j p k : ℕ)
    → IsBlockSize b
    → b ≤ 1024
    → i % 1024 ≡ 0
    → j % 1024 ≡ 0
    → p ≡ b * k
    → b + superblock_size + i + j ≤ p
    → p < b + superblock_size + i + j + b
    → p ≡ b + superblock_size + i + j
aligned_exact b i j p k (inl e) small hi hj m reach near =
    let m' : p ≡ 512 * k = m ∙ ap (λ (t : ℕ). t * k) e in omega arith
aligned_exact b i j p k (inr (inl e)) small hi hj m reach near =
    let m' : p ≡ 1024 * k = m ∙ ap (λ (t : ℕ). t * k) e in omega arith
aligned_exact b i j p k (inr (inr (inl e))) small hi hj m reach near = absurd (omega arith)
aligned_exact b i j p k (inr (inr (inr e))) small hi hj m reach near = absurd (omega arith)

-- A formatted device against the estimates that `usable_capacity` made.
module _ {capacity b u : ℕ} (device : IsDevice capacity b) (us : Usable capacity b u) where
  pub formatted-IsModest : IsModest (formatted b u)
  formatted-IsModest = record {
    least_block = device.least_block;
    most_block = device.most_block;
    inodes = omega (arith, div-mul-le_self capacity b);
    blocks = omega (arith, mul-div-le u b, div-mul-le_self capacity b);
  }

  inode_count_le : u / data_per_inode ≤ max_inodes capacity b
  inode_count_le = omega (arith, div-mul-le_self capacity b)

  block_count_fits : u / b ≤ max_blocks capacity b
  block_count_fits =
      (le-div_iff_mul-le {k = b} {x = u / b}
          {y = behind_superblock capacity b - max_inodes capacity b * inode_size} (omega arith)).1
        (omega (arith, div-mul-le_self u b, div-mul-le_self capacity b))

  regions : Regions (formatted b u)
  regions = IsModest-Regions (formatted b u) formatted-IsModest

  inode_bitmap_le : regions.inode_bitmap ≤ us.inode_bitmap
  inode_bitmap_le =
      size_in_bytes_mono (u / data_per_inode) (max_inodes capacity b) regions.inode_bitmap
        us.inode_bitmap inode_count_le regions.inode_bitmap_is us.inode_bitmap_is

  block_bitmap_le : regions.block_bitmap ≤ us.block_bitmap
  block_bitmap_le =
      size_in_bytes_mono (u / b) (max_blocks capacity b) regions.block_bitmap us.block_bitmap
        block_count_fits regions.block_bitmap_is us.block_bitmap_is

  inodes_reach : regions.inodes < us.before + b - inode_size * (u / data_per_inode)
  inodes_reach = omega (
    arith, regions.inodes_aligned.near, us.aligned.reaches, inode_count_le, inode_bitmap_le,
    block_bitmap_le, regions.behind_superblock,
  )

  -- The blocks start at most one block later than was counted with.
  blocks_near : regions.blocks ≤ us.before + b
  blocks_near = omega (
    arith,
    multiples_step b regions.blocks_aligned.blocks (us.aligned.blocks + 1) (
        omega (
          arith, regions.blocks_aligned.near, regions.blocks_aligned.multiple, us.aligned.multiple,
          inodes_reach,
        )),
    regions.blocks_aligned.multiple,
    us.aligned.multiple,
  )

  data_le : b * (u / b) ≤ capacity - us.before
  data_le = omega (arith, mul-div-le u b, div-mul-le_self capacity b)

  end_near : regions.end ≤ capacity + b
  end_near =
      omega (arith, regions.end_is, blocks_near, data_le, us.below, div-mul-le_self capacity b)

  -- With blocks of 512 or 1024 bytes the bitmaps end at a block boundary.
  inodes_exact :
      b ≤ 1024
      → IsBlockSize b
      → regions.inodes ≡ regions.bitmaps + regions.inode_bitmap + regions.block_bitmap
  inodes_exact small h =
      let i =
        IsBitmapSize-of_ok (u / data_per_inode) regions.inode_bitmap regions.inode_bitmap_is in
      let j = IsBitmapSize-of_ok (u / b) regions.block_bitmap regions.block_bitmap_is in
      let a = regions.inodes_aligned in
      aligned_exact b regions.inode_bitmap regions.block_bitmap regions.inodes a.blocks h small
        i.whole j.whole a.multiple (omega (arith, a.reaches, regions.behind_superblock))
        (omega (arith, a.near, regions.behind_superblock))
      ∙ omega (arith, regions.behind_superblock)

  blocks_exact : b ≤ 1024 → IsBlockSize b → regions.blocks ≤ us.before
  blocks_exact small h = omega (
    arith,
    multiples_step b regions.blocks_aligned.blocks us.aligned.blocks (
        omega (
          arith,
          regions.blocks_aligned.near,
          regions.blocks_aligned.multiple,
          us.aligned.multiple,
          us.aligned.reaches,
          inode_count_le,
          inode_bitmap_le,
          block_bitmap_le,
          regions.behind_superblock,
          inodes_exact small h,
        )),
    regions.blocks_aligned.multiple,
    us.aligned.multiple,
  )

  end_fits : b ≤ 1024 → IsBlockSize b → regions.end ≤ capacity
  end_fits small h =
      omega
        (arith, regions.end_is, blocks_exact small h, data_le, us.below, div-mul-le_self capacity b)

-- Formatting a device of 64 KiB to 2 ^ 62 bytes with a block size of 512, 1024, 2048 or 4096
-- succeeds, and its regions lie in order: the bitmaps directly behind the boot sector and the
-- superblock, then the inodes and the blocks, each at the first block boundary that leaves room
-- for what stands before. They reach at most one block beyond the device.
pub new-Regions :
    (capacity b : ℕ)
    → IsDevice capacity b
    → IsBlockSize b
    → (s : Superblock) × (new capacity b ≡ ok s) × (r : Regions s) × (r.end ≤ capacity + b)
new-Regions capacity b device size =
    let (u, e, us) = usable_capacity-Usable device in
    (formatted b u, new_run capacity b u size e, regions device us, end_near device us)

-- With blocks of 512 or 1024 bytes the regions of a formatted device end within the device.
pub new-fits :
    (capacity b : ℕ)
    → IsDevice capacity b
    → IsBlockSize b
    → b ≤ 1024
    → (s : Superblock) × (new capacity b ≡ ok s) × (r : Regions s) × (r.end ≤ capacity)
new-fits capacity b device size small =
    let (u, e, us) = usable_capacity-Usable device in
    (formatted b u, new_run capacity b u size e, regions device us, end_fits device us small size)
