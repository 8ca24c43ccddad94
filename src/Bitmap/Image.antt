-- ===== src/Bitmap/Image.antt =====
-- The image of a bitmap on the device: what `flush_content` writes, `load_content` reads back.
use ftn_tananfs.Base.{
  ℕ, suc, ◌*◌, ◌<◌, ◌≡◌, refl, arith, List, [], ◌∷◌, ◌++◌, length, drop, get_or, length-append,
  length-drop, le→ltb-false, ap,
}
use ftn_tananfs.Outcome.{ok, word}
use ftn_tananfs.Word.Bytes.{le_bytes, from_le-le_bytes}
use ftn_tananfs.Bitmap.{load_chunks, flush_chunks}

-- Machine words that `flush_content` puts into a buffer of 8 bytes to a word are read back from it
-- by `load_content`, over any old words of the same number.
pub load_chunks-flush_chunks :
    (ws old : List ℕ) (buffer : List ℕ)
    → ((i : ℕ) → get_or ws i 0 < word)
    → length old ≡ length ws
    → length buffer ≡ 8 * length ws
    → (bytes : List ℕ) × (flush_chunks (length ws) ws buffer ≡ ok bytes)
      × (length bytes ≡ 8 * length ws)
      × (load_chunks (length ws) old bytes ≡ ok ws)
unfolding load_chunks flush_chunks
load_chunks-flush_chunks [] [] buffer fits same size = (buffer, refl, size, refl)
load_chunks-flush_chunks [] (o ∷ old) buffer fits same size = absurd (omega arith)
load_chunks-flush_chunks (w ∷ ws) [] buffer fits same size = absurd (omega arith)
load_chunks-flush_chunks (w ∷ ws) (o ∷ old) buffer fits same size =
    let (bytes, written, len, read) =
      load_chunks-flush_chunks ws old (drop 8 buffer) (λ i. fits (suc i)) (omega arith)
        (omega (arith, length-drop 8 buffer)) in
    (
      le_bytes 8 w ++ bytes,
      rw (le→ltb-false (length buffer) 8 (omega arith), written),
      omega (arith, length-append {0} (le_bytes 8 w) bytes),
      rw (le→ltb-false (length (le_bytes 8 w ++ bytes)) 8 (omega arith), read)
          (ap (λ t. ok (t ∷ ws)) (from_le-le_bytes 8 w (fits 0))),
    )
