-- ===== src/DirectoryChild/Image.antt =====
-- The bytes of a directory entry are read back as the entry, whatever follows them.
use ftn_tananfs.Base.{
  ℕ, ◌+◌, ◌-◌, ◌%◌, ◌^◌, ◌<◌, ◌≡◌, ◌∙◌, ap, arith, true, List, ◌++◌, length, take, length-append,
  take-append_exact, drop-append_exact, drop-append_add, le→ltb-false,
}
use mathlib.Core.List.{append_assoc}
use ftn_tananfs.Outcome.{ok}
use ftn_tananfs.Word.Bytes.{be_bytes, from_be, from_be-be_bytes, length-be_bytes}
use ftn_tananfs.Word.Utf8.{is_utf8}
use ftn_tananfs.Block.{slice}
use ftn_tananfs.Block.Data.{slice-ok, slice_front}
use ftn_tananfs.DirectoryChild.{DirectoryChild, from_bytes, as_bytes}

-- The inode is a `u64`, and the name is UTF-8 of less than `2 ^ 16` bytes.
pub record IsEntry (c : DirectoryChild) : Type 0 where
  pub inode_fits : c.inode < 256 ^ 8
  pub name_fits : length c.name < 256 ^ 2
  pub name_valid : is_utf8 c.name ≡ true

pub length-as_bytes : (c : DirectoryChild) → length (as_bytes c) ≡ 10 + length c.name
unfolding as_bytes
length-as_bytes c = omega (
  arith,
  length-append {0} (be_bytes 8 c.inode) (be_bytes 2 (length c.name % 2 ^ 16) ++ c.name),
  length-append {0} (be_bytes 2 (length c.name % 2 ^ 16)) c.name,
  length-be_bytes 8 c.inode,
  length-be_bytes 2 (length c.name % 2 ^ 16),
)

-- Parsing three parts in a row, given what the first two stand for.
module _ (a b n rest : List ℕ) (la : length a ≡ 8) (lb : length b ≡ 2) where
  whole : List ℕ
  whole = a ++ (b ++ (n ++ rest))

  length-whole : length whole ≡ 10 + length n + length rest
  unfolding whole
  length-whole = omega (
    arith,
    length-append {0} a (b ++ (n ++ rest)),
    length-append {0} b (n ++ rest),
    length-append {0} n rest,
  )

  first_part : slice 0 8 whole ≡ ok a
  unfolding whole
  first_part =
      slice_front 8 whole (omega (arith, length-whole))
      ∙ ap ok (take-append_exact 8 a (b ++ (n ++ rest)) la)

  second_part : slice 8 10 whole ≡ ok b
  unfolding whole
  second_part =
      slice-ok 8 10 whole (omega arith) (omega (arith, length-whole))
      ∙ ap (λ t. ok (take 2 t)) (drop-append_exact 8 a (b ++ (n ++ rest)) la)
      ∙ ap ok (take-append_exact 2 b (n ++ rest) lb)

  third_part : slice 10 (10 + length n) whole ≡ ok n
  unfolding whole
  third_part =
      slice-ok 10 (10 + length n) whole (omega arith) (omega (arith, length-whole))
      ∙ ap (λ t. ok (take (10 + length n - 10) t))
          (drop-append_add 8 2 a (b ++ (n ++ rest)) la ∙ drop-append_exact 2 b (n ++ rest) lb)
      ∙ ap ok (take-append_exact (10 + length n - 10) n rest (omega arith))

  parse :
      (inode : ℕ)
      → from_be a ≡ inode
      → from_be b ≡ length n
      → is_utf8 n ≡ true
      → from_bytes whole ≡ ok (record { inode = inode; name = n })
  unfolding from_bytes
  parse inode ia ib valid = rw (
    le→ltb-false (length whole) 10 (omega (arith, length-whole)),
    first_part,
    second_part,
    ib,
    le→ltb-false (length whole) (10 + length n) (omega (arith, length-whole)),
    third_part,
    valid,
    ia,
  )

-- An entry is parsed from its bytes, whatever follows them, if its name is UTF-8 of less than
-- `2 ^ 16` bytes.
pub from_bytes-as_bytes :
    (c : DirectoryChild) (rest : List ℕ) → IsEntry c → from_bytes (as_bytes c ++ rest) ≡ ok c
unfolding as_bytes whole
from_bytes-as_bytes c rest e =
    let a = be_bytes 8 c.inode in
    let b = be_bytes 2 (length c.name % 2 ^ 16) in
    rw (append_assoc a (b ++ c.name) rest, append_assoc b c.name rest)
      (parse a b c.name rest (length-be_bytes 8 c.inode)
        (length-be_bytes 2 (length c.name % 2 ^ 16)) c.inode
        (from_be-be_bytes 8 c.inode e.inode_fits)
        (from_be-be_bytes 2 (length c.name % 2 ^ 16) (omega (arith, e.name_fits))
          ∙ omega (arith, e.name_fits))
        e.name_valid)
