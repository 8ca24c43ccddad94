-- ===== src/Block/Data.antt =====
-- What reads of a block see of earlier writes.
use mathlib.Core.Path.{subst}
use mathlib.Core.List.{append-nil}
use ftn_tananfs.Base.{
  ℕ, ◌+◌, ◌-◌, ◌≤◌, ◌<◌, ◌≡◌, ◌∙◌, refl, ap, sym, min, arith, List, ◌++◌, length, take, drop,
  replicate, length-append, length-take, length-drop, take-append_exact, drop-append_exact, get_or,
  get_or-append_right, get_or-drop, take-append_less, take-take, drop_all,
}
use ftn_tananfs.Outcome.{ok, word, -u-ok, +u-ok}
use ftn_tananfs.Word.Bytes.{le_bytes, from_le, from_le-le_bytes}
use ftn_tananfs.Structs.{Block}
use ftn_tananfs.Block.{
  overwrite, copy_into, slice, u64_from_bytes, set_next_block, get_next_block, write_to_block,
}

pub copy_into-ok :
    (first last : ℕ) (src dst : List ℕ)
    → first ≤ last
    → last ≤ length dst
    → length src ≡ last - first
    → copy_into first last src dst ≡ ok (overwrite first src dst)
unfolding copy_into
copy_into-ok first last src dst a b c = ground arith

pub slice-ok :
    (first last : ℕ) (src : List ℕ)
    → first ≤ last
    → last ≤ length src
    → slice first last src ≡ ok (take (last - first) (drop first src))
unfolding slice
slice-ok first last src a b = ground arith

pub slice_front : (n : ℕ) (src : List ℕ) → n ≤ length src → slice 0 n src ≡ ok (take n src)
slice_front n src h = slice-ok 0 n src (omega arith) h ∙ ap (λ k. ok (take k src)) (omega arith)

pub overwrite_whole : (src dst : List ℕ) → length src ≡ length dst → overwrite 0 src dst ≡ src
overwrite_whole src dst e = rw (drop_all (0 + length src) dst (omega arith)) (append-nil src)

pub length-overwrite :
    (n : ℕ) (src dst : List ℕ)
    → n + length src ≤ length dst
    → length (overwrite n src dst) ≡ length dst
length-overwrite n src dst h = omega (
  arith,
  length-append {0} (take n dst) (src ++ drop (n + length src) dst),
  length-append {0} src (drop (n + length src) dst),
  length-take {0} n dst,
  length-drop {0} (n + length src) dst,
)

-- What stands where `src` was written.
pub slice-overwrite_self :
    (n : ℕ) (src dst : List ℕ)
    → n ≤ length dst
    → take (length src) (drop n (overwrite n src dst)) ≡ src
slice-overwrite_self n src dst h =
    ap (take (length src)) (
      drop-append_exact n (take n dst) (src ++ drop (n + length src) dst)
        (omega (arith, length-take {0} n dst)))
    ∙ take-append_exact (length src) src (drop (n + length src) dst) refl

-- The bytes behind and in front of what was written stay.
pub get_or-overwrite_behind :
    (n : ℕ) (src dst : List ℕ) (i : ℕ)
    → n ≤ length dst
    → get_or (overwrite n src dst) (n + length src + i) 0 ≡ get_or dst (n + length src + i) 0
get_or-overwrite_behind n src dst i le =
    let len : length (take n dst) ≡ n = omega (arith, length-take {0} n dst) in
    let e : n + length src + i ≡ length (take n dst) + (length src + i) = omega arith in
    rw e (
      get_or-append_right (take n dst) (src ++ drop (n + length src) dst) (length src + i) 0
      ∙ get_or-append_right src (drop (n + length src) dst) i 0
      ∙ get_or-drop (n + length src) dst i 0
      ∙ ap (λ k. get_or dst k 0) e)

take-overwrite :
    (m n : ℕ) (src dst : List ℕ)
    → m ≤ n
    → n ≤ length dst
    → take m (overwrite n src dst) ≡ take m dst
take-overwrite m n src dst h le =
    take-append_less m (take n dst) (src ++ drop (n + length src) dst)
      (omega (arith, length-take {0} n dst))
    ∙ take-take m n dst h

-- What a write comes to
pub write_to_block-ok :
    (block : Block) (offset n : ℕ) (buffer : List ℕ)
    → offset ≤ length block.bytes
    → length block.bytes < word
    → min (length block.bytes - offset) (length buffer) ≡ n
    → write_to_block block offset buffer
      ≡ ok (record block { bytes = overwrite offset (take n buffer) block.bytes }, n)
unfolding write_to_block
write_to_block-ok block offset n buffer h fits least =
    rw (-u-ok (length block.bytes) offset h, least)
      (rw
        (
          +u-ok offset n (omega arith),
          slice_front n buffer (omega arith),
          copy_into-ok offset (offset + n) (take n buffer) block.bytes (omega arith) (omega arith)
              (omega (arith, length-take {0} n buffer)),
        )
        refl)

-- A write of `n` bytes from `buffer` into `block` at `offset` came to `out`.
pub record Wrote (block : Block) (offset : ℕ) (buffer : List ℕ) (n : ℕ) (out : Block) : Type 0 where
  pub count : n ≡ min (length block.bytes - offset) (length buffer)
  pub index : out.index ≡ block.index
  pub size : length out.bytes ≡ length block.bytes
  pub inside : take n (drop offset out.bytes) ≡ take n buffer
  pub front : take offset out.bytes ≡ take offset block.bytes
  pub behind : (i : ℕ) → get_or out.bytes (offset + n + i) 0 ≡ get_or block.bytes (offset + n + i) 0

-- A write at an offset that is not beyond the block, whose size is a `u64`, succeeds. It takes as many bytes of the buffer as fit
-- behind the offset, puts them there, and leaves every other byte, the index and the size alone.
pub write_to_block-Wrote :
    (block : Block) (offset : ℕ) (buffer : List ℕ)
    → offset ≤ length block.bytes
    → length block.bytes < word
    → (out : Block) × (n : ℕ) × (write_to_block block offset buffer ≡ ok (out, n))
      × Wrote block offset buffer n out
write_to_block-Wrote block offset buffer h fits =
    let n = min (length block.bytes - offset) (length buffer) in
    let src = take n buffer in
    let len : length src ≡ n = omega (arith, length-take {0} n buffer) in
    (
      record block { bytes = overwrite offset src block.bytes },
      n,
      write_to_block-ok block offset n buffer h fits refl,
      record {
        count = refl;
        index = refl;
        size = length-overwrite offset src block.bytes (omega arith);
        inside =
            ap (λ k. take k (drop offset (overwrite offset src block.bytes))) (sym len)
            ∙ slice-overwrite_self offset src block.bytes h;
        front = take-overwrite offset offset src block.bytes (omega arith) h;
        behind = λ i.
            subst
              (λ k.
                get_or (overwrite offset src block.bytes) (offset + k + i) 0
                ≡ get_or block.bytes (offset + k + i) 0)
              len (get_or-overwrite_behind offset src block.bytes i h);
      },
    )

-- The number of the next block, as the first 8 bytes of the block say.
pub get_next_block-ok :
    (block : Block)
    → 8 ≤ length block.bytes
    → get_next_block block ≡ ok (from_le (take 8 block.bytes))
unfolding get_next_block u64_from_bytes
get_next_block-ok block h =
    rw
      (
        slice_front 8 block.bytes h,
        copy_into-ok 0 8 (take 8 block.bytes) (replicate 8 0) (omega arith) (omega arith)
            (omega (arith, length-take {0} 8 block.bytes)),
      )
      (ap (λ t. ok (from_le t))
        (overwrite_whole (take 8 block.bytes) (replicate 8 0)
          (omega (arith, length-take {0} 8 block.bytes))))

-- In a block of at least 8 bytes, a `u64` that is set as the number of the next block is read back;
-- setting it changes neither the index nor the size of the block nor any byte from byte 8 on.
pub get_next_block-set_next_block :
    (block : Block) (next : ℕ)
    → 8 ≤ length block.bytes
    → next < word
    → (out : Block) × (set_next_block block next ≡ ok out)
      × (get_next_block out ≡ ok next)
      × (out.index ≡ block.index)
      × (length out.bytes ≡ length block.bytes)
      × ((i : ℕ) → get_or out.bytes (8 + i) 0 ≡ get_or block.bytes (8 + i) 0)
unfolding set_next_block
get_next_block-set_next_block block next h fits =
    let out : Block = record block { bytes = overwrite 0 (le_bytes 8 next) block.bytes } in
    (
      out,
      rw (copy_into-ok 0 8 (le_bytes 8 next) block.bytes (omega arith) h (omega arith)),
      get_next_block-ok out (omega arith) ∙ ap ok (from_le-le_bytes 8 next fits),
      refl,
      length-overwrite 0 (le_bytes 8 next) block.bytes (omega arith),
      λ i. get_or-overwrite_behind 0 (le_bytes 8 next) block.bytes i (omega arith),
    )

-- Bytes that are written from byte 8 on leave the number of the next block.
pub get_next_block-overwrite :
    (block : Block) (offset : ℕ) (src : List ℕ)
    → 8 ≤ offset
    → offset + length src ≤ length block.bytes
    → get_next_block (record block { bytes = overwrite offset src block.bytes })
      ≡ get_next_block block
get_next_block-overwrite block offset src h le =
    let out : Block = record block { bytes = overwrite offset src block.bytes } in
    get_next_block-ok out (omega (arith, length-overwrite offset src block.bytes le))
    ∙ ap (λ t. ok (from_le t)) (take-overwrite 8 offset src block.bytes h (omega arith))
    ∙ sym (get_next_block-ok block (omega arith))
