-- ===== src/Cursor.antt =====
-- src/filetypes/block_cursor.rs: a position in a file, as a block and a byte of that block. Each
-- block has padding at the front (the number of the next block) and at the back.
pub mod Moves
pub mod Regress
pub mod Next
pub mod Inside
pub mod Chunks
use ftn_tananfs.Base.{ℕ, ltb, leb, ◌==◌, if◌then◌else◌}
use ftn_tananfs.Outcome as Checked
use ftn_tananfs.Outcome.{Outcome, ok, ◌+u◌, ◌-u◌, ◌*u◌, ◌/u◌, ◌%u◌}
use ftn_tananfs.Outcome.Action.{Action, lift, gets, modify, ◌>>=◌, ◌>>◌, pure}

pub record BlockCursor : Type 0 where
  pub block_size : ℕ
  pub block_padding_front : ℕ
  pub block_padding_back : ℕ
  pub current_block : ℕ
  pub current_byte : ℕ

-- `BlockCursor::new`, `BlockCursor::from`, given the block size of the filesystem
unfoldable pub new : ℕ → ℕ → ℕ → BlockCursor
new block_size front back = record {
  block_size = block_size;
  block_padding_front = front;
  block_padding_back = back;
  current_block = 0;
  current_byte = front;
}

unfoldable pub from : ℕ → ℕ → ℕ → ℕ → ℕ → BlockCursor
from block_size starting_block starting_byte front back = record {
  block_size = block_size;
  block_padding_front = front;
  block_padding_back = back;
  current_block = starting_block;
  current_byte = starting_byte;
}

-- `padded_block`, which the other methods repeat in place
unfoldable pub padded_block : BlockCursor → Outcome ℕ
padded_block c =
    Checked.◌>>=◌ (c.block_size -u c.block_padding_front) λ rest. rest -u c.block_padding_back

unfoldable pub padded_byte : BlockCursor → Outcome ℕ
padded_byte c = c.current_byte -u c.block_padding_front

unfoldable pub current : BlockCursor → Outcome ℕ
current c = Checked.◌>>=◌ (padded_block c) λ padded.
    Checked.◌>>=◌ (padded *u c.current_block)
      λ whole. Checked.◌>>=◌ (padded_byte c) λ byte. whole +u byte

unfoldable pub position : BlockCursor → Outcome ℕ
position c =
    if c.current_block == 0
    then padded_byte c
    else Checked.◌>>=◌ (padded_block c) λ padded.
      Checked.◌>>=◌ (c.current_block *u padded)
        λ whole. Checked.◌>>=◌ (padded_byte c) λ byte. whole +u byte

unfoldable pub advance : ℕ → Action BlockCursor ℕ
advance bytes c =
    (do
      padded ← lift (padded_block c)
      used ← lift (c.current_byte +u c.block_padding_back)
      remaining ← lift (c.block_size -u used)
      if ltb bytes remaining
          then (do
            byte ← lift (c.current_byte +u bytes)
            modify (λ s. record s { current_byte = byte })
            λ s. (current s, s))
          else do
            over ← lift (bytes -u remaining)
            blocks ← lift (over /u padded)
            advance_blocks ← lift (blocks +u 1)
            advance_bytes ← lift (over %u padded)
            block ← lift (c.current_block +u advance_blocks)
            modify (λ s. record s { current_block = block })
            byte ← lift (c.block_padding_front +u advance_bytes)
            modify (λ s. record s { current_byte = byte })
            λ s. (current s, s))
      c

unfoldable pub regress : ℕ → Action BlockCursor ℕ
regress bytes c =
    (do
      padded ← lift (padded_block c)
      remaining ← lift (padded_byte c)
      if ltb bytes remaining
          then (do
            byte ← lift (c.current_byte -u bytes)
            modify (λ s. record s { current_byte = byte })
            λ s. (current s, s))
          else do
            over ← lift (bytes -u remaining)
            blocks ← lift (over /u padded)
            regress_blocks ← lift (blocks +u 1)
            regress_bytes ← lift (over %u padded)
            (if leb regress_blocks c.current_block
                then (do
                  block ← lift (c.current_block -u regress_blocks)
                  modify (λ s. record s { current_block = block })
                  edge ← lift (c.block_size -u c.block_padding_back)
                  byte ← lift (edge -u regress_bytes)
                  modify (λ s. record s { current_byte = byte }))
                else modify (λ s. record s { current_block = 0; current_byte = 0 }))
            λ s. (current s, s))
      c

unfoldable pub reset : BlockCursor → BlockCursor
reset c = record c { current_block = 0; current_byte = c.block_padding_front }

unfoldable pub set : ℕ → Action BlockCursor ℕ
set bytes = do modify reset; advance bytes
