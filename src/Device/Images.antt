-- ===== src/Device/Images.antt =====
-- The structures of the filesystem on a device that does not fail: where each is written, and what
-- stands there is read.
use ftn_tananfs.Base.{
  ℕ, ◌+◌, ◌*◌, ◌/◌, ◌<◌, ◌≡◌, refl, sym, ap, ◌∙◌, arith, get_or, List, length, take, drop,
  replicate, length-replicate,
}
use ftn_tananfs.Outcome.{ok, word}
use ftn_tananfs.Structs.{Superblock, Inode, Block, Bitmap, superblock_size, inode_size}
use ftn_tananfs.Structs.Packed.{
  superblock_bytes, inode_bytes, SuperblockFits, InodeFits, superblock_of_bytes-superblock_bytes,
  inode_of_bytes-inode_bytes, length-superblock_bytes, length-inode_bytes,
}
use ftn_tananfs.Structs.Size.{size_in_bytes, size_in_usize-size_in_bytes, IsBitmapSize-of_ok}
use ftn_tananfs.Superblock.Regions.{Regions, IsModest}
use ftn_tananfs.Superblock.Positions.{inode_position-within, block_position-within}
use ftn_tananfs.Bitmap.{load_chunks, flush_chunks}
use ftn_tananfs.Bitmap.Image.{load_chunks-flush_chunks}
use ftn_tananfs.Device.{Device}
use ftn_tananfs.Device.Memory.{IsMemory, Writes, Reads, Writes-seek, Reads-seek}
use ftn_tananfs.Device.Structures.{
  load_superblock, flush_superblock, load_bitmap, flush_bitmap, load_content, flush_content,
  load_inode, flush_inode, load_block, flush_block,
}

-- A bitmap with a word for each eight bytes of its image, which has `bytes` of them
pub record IsWhole (b : Bitmap) (bytes : ℕ) : Type 0 where
  pub sized : size_in_bytes b.count ≡ ok bytes
  pub words : length b.bitfield ≡ bytes / 8
  pub bounded : (i : ℕ) → get_or b.bitfield i 0 < word

-- The bytes that a bitmap is written as, and that give it back from any bitmap of its shape
pub record IsImage (b : Bitmap) (bytes : ℕ) (image : List ℕ) : Type 0 where
  pub size : length image ≡ bytes
  pub written : flush_chunks (bytes / 8) b.bitfield (replicate bytes 0) ≡ ok image
  pub read :
      (old : List ℕ) → length old ≡ bytes / 8 → load_chunks (bytes / 8) old image ≡ ok b.bitfield

pub IsImage-of :
    (b : Bitmap) (bytes : ℕ) → IsWhole b bytes → (image : List ℕ) × IsImage b bytes image
IsImage-of b bytes h =
    let old = b.bitfield in
    let size = IsBitmapSize-of_ok b.count bytes h.sized in
    let words = h.words in
    let blank = replicate bytes 0 in
    let blank_size : length blank ≡ 8 * length old =
      omega (arith, length-replicate {0} {A = ℕ} bytes 0, size.whole, words) in
    let (image, written, len, read) =
      load_chunks-flush_chunks old old blank h.bounded refl blank_size in
    (
      image,
      record {
        size = omega (arith, len, size.whole, words);
        written = ap (λ n. flush_chunks n old blank) (sym words) ∙ written;
        read = λ other same.
            let (image', written', len', read') =
              load_chunks-flush_chunks old other blank h.bounded (same ∙ sym words) blank_size in
            let e : ok image' ≡ ok image = sym written' ∙ written in
            let image_is : image' ≡ image = cc in
            ap (λ n. load_chunks n other image) (sym words)
            ∙ ap (load_chunks (length old) other) (sym image_is)
            ∙ read';
      },
    )

module _ {W : Type 0} {device : Device W} (memory : IsMemory device) where
  pub flush_superblock-Writes :
      (s : Superblock) → Writes memory s.block_size (superblock_bytes s) (flush_superblock device s)
  unfolding flush_superblock
  flush_superblock-Writes s = Writes-seek memory s.block_size (superblock_bytes s)

  pub load_superblock-Reads :
      (s : Superblock)
      → SuperblockFits s
      → Reads memory s.block_size (superblock_bytes s) s (load_superblock device s.block_size)
  unfolding load_superblock
  load_superblock-Reads s fits =
      Reads-seek memory s.block_size superblock_size (superblock_bytes s) _ s
        (length-superblock_bytes s fits)
        (λ w. ap (λ x. (ok x, w)) (superblock_of_bytes-superblock_bytes s fits))

  pub flush_bitmap-Writes :
      (b : Bitmap) (bytes : ℕ) (image : List ℕ)
      → IsWhole b bytes
      → IsImage b bytes image
      → Writes memory b.position image (flush_bitmap device b)
  unfolding flush_bitmap flush_content
  flush_bitmap-Writes b bytes image h i = record {
    at = λ w fits.
        let (w1, e1, c1, at1) = memory.seeks b.position w in
        let (w2, e2, c2) = memory.writes image w1 (rw (c1, at1) fits) in
        (
          w2,
          rw (e1, h.sized, size_in_usize-size_in_bytes b.count h.sized, i.written, e2) refl,
          c2 ∙ rw (c1, at1) refl,
        );
  }

  pub load_bitmap-Reads :
      (b old : Bitmap) (bytes : ℕ) (image : List ℕ)
      → IsWhole b bytes
      → IsImage b bytes image
      → old.count ≡ b.count
      → old.position ≡ b.position
      → length old.bitfield ≡ bytes / 8
      → Reads memory b.position image b (load_bitmap device old)
  unfolding load_bitmap load_content
  load_bitmap-Reads b old bytes image h i count position words = record {
    at = λ w fits there.
        let (w1, e1, c1, at1) = memory.seeks b.position w in
        let (w2, e2, c2) = memory.reads bytes w1 (rw (c1, at1, sym i.size) fits) in
        let raw : take bytes (drop (memory.place w1) (memory.content w1)) ≡ image =
          rw (c1, at1, sym i.size) there in
        (
          w2,
          rw
              (
                position,
                e1,
                count,
                h.sized,
                e2,
                raw,
                size_in_usize-size_in_bytes b.count h.sized,
                i.read old.bitfield words,
              )
              refl,
          c2 ∙ c1,
        );
  }

  module _ {s : Superblock} (m : IsModest s) (r : Regions s) where
    pub flush_inode-Writes :
        (n : Inode)
        → n.index < s.inode_count
        → Writes memory (r.inodes + n.index * inode_size) (inode_bytes n) (flush_inode device s n)
    unfolding flush_inode
    flush_inode-Writes n h =
        rw ((inode_position-within s m r n.index h).0)
          (Writes-seek memory (r.inodes + n.index * inode_size) (inode_bytes n))

    pub load_inode-Reads :
        (n : Inode)
        → n.index < s.inode_count
        → InodeFits n
        → Reads memory
            (r.inodes + n.index * inode_size)
            (inode_bytes n)
            n
            (load_inode device s n.index)
    unfolding load_inode
    load_inode-Reads n h fits = rw ((inode_position-within s m r n.index h).0) (
        Reads-seek memory (r.inodes + n.index * inode_size) inode_size (inode_bytes n) _ n
          (length-inode_bytes n fits)
          (λ w. ap (λ x. (ok x, w)) (inode_of_bytes-inode_bytes n fits)))

    pub flush_block-Writes :
        (b : Block)
        → b.index < s.block_count
        → Writes memory (r.blocks + b.index * s.block_size) b.bytes (flush_block device s b)
    unfolding flush_block
    flush_block-Writes b h =
        rw ((block_position-within s m r b.index h).0)
          (Writes-seek memory (r.blocks + b.index * s.block_size) b.bytes)

    pub load_block-Reads :
        (b : Block)
        → b.index < s.block_count
        → length b.bytes ≡ s.block_size
        → Reads memory (r.blocks + b.index * s.block_size) b.bytes b (load_block device s b.index)
    unfolding load_block
    load_block-Reads b h size = rw ((block_position-within s m r b.index h).0) (
        Reads-seek memory (r.blocks + b.index * s.block_size) s.block_size b.bytes _ b size
          (λ w. refl))
