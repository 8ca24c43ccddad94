-- ===== src/Word/Utf8.antt =====
-- `std::str::from_utf8`: which byte strings are UTF-8. Names are kept as their bytes.
use ftn_tananfs.Base.{
  ℕ, zero, suc, leb, ltb, ◌==◌, if◌then◌else◌, Bool, true, false, ◌&&◌, Option, none, some, List,
  [], ◌∷◌,
}

-- What may follow a first byte: the number of continuation bytes, and the range of the next one.
pub record Pending : Type 0 where
  pub left : ℕ
  pub low : ℕ
  pub high : ℕ

abbrev pending : ℕ → ℕ → ℕ → Option Pending
pending left low high = some (record { left = left; low = low; high = high })

abbrev first_byte : ℕ → Option Pending
first_byte b =
    if ltb b 0x80
    then pending 0 0x80 0xbf
    else if ltb b 0xc2
    then none
    else if ltb b 0xe0
    then pending 1 0x80 0xbf
    else if b == 0xe0
    then pending 2 0xa0 0xbf
    else if b == 0xed
    then pending 2 0x80 0x9f
    else if ltb b 0xf0
    then pending 2 0x80 0xbf
    else if b == 0xf0
    then pending 3 0x90 0xbf
    else if ltb b 0xf4
    then pending 3 0x80 0xbf
    else if b == 0xf4
    then pending 3 0x80 0x8f
    else none

utf8_from : ℕ → ℕ → ℕ → List ℕ → Bool
utf8_from zero low high [] = true
utf8_from (suc left) low high [] = false
utf8_from zero low high (b ∷ bs) = elim (first_byte b) [
  | none ↦ false
  | some p ↦ utf8_from p.left p.low p.high bs
]
utf8_from (suc left) low high (b ∷ bs) = elim (leb low b && leb b high) [
  | false ↦ false
  | true ↦ utf8_from left 0x80 0xbf bs
]

unfoldable pub is_utf8 : List ℕ → Bool
unfolding utf8_from
is_utf8 bytes = utf8_from 0 0x80 0xbf bytes
