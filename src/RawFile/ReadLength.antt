-- ===== src/RawFile/ReadLength.antt =====
-- How much `read` of a raw file returns.
use ftn_tananfs.Base.{
  ℕ, zero, suc, ◌+◌, ◌-◌, ◌≤◌, ◌≡◌, refl, sym, ◌∙◌, arith, tests, leb, ltb, ◌==◌, false, List, [],
  ◌∷◌, ◌++◌, length, take, drop, min, replicate, length-replicate, length-append, length-take,
  length-drop,
}
use ftn_tananfs.Outcome.{ok, panic, assert, ◌+u◌, ◌-u◌}
use ftn_tananfs.Outcome.Action.{pure, lift, gets, gets_ok, raise_if, ◌>>=◌}
use ftn_tananfs.Outcome.Returns.{
  Returns, asserted, Returns-weaken, bind_ok, of_ok, ok-of-panic, Returns-pure, Returns-lift,
  Returns-if, Returns-bind, Returns-after,
}
use ftn_tananfs.Structs.{Block}
use ftn_tananfs.Block.{read_from_block, copy_into, slice, overwrite, get_next_block}
use ftn_tananfs.Device.{Device}
use ftn_tananfs.Error.{Error}
use ftn_tananfs.Cursor.{advance, position}
use ftn_tananfs.Block.Data.{length-overwrite}
use ftn_tananfs.Filesystem.Access.{load_block}
use ftn_tananfs.Filesystem.Using.{on_fs, on_object}
use ftn_tananfs.RawFile.{on_cursor, get_nth_block}
use ftn_tananfs.RawFile.Read.{read, read_rounds}

-- The buffer keeps its length, and not more than that is read.
pub record Filled (buffer : List ℕ) (r : List ℕ × ℕ) : Type 0 where
  pub same : length r.0 ≡ length buffer
  pub within : r.1 ≤ length buffer

length-copy_into :
    (first last : ℕ) (src dst out : List ℕ)
    → copy_into first last src dst ≡ ok out
    → (length out ≡ length dst) × (last ≤ length dst)
unfolding copy_into
length-copy_into first last src dst out h =
    let (u, ordered, h1) = bind_ok (assert (leb first last)) _ out h in
    let (v, within, h2) = bind_ok (assert (leb last (length dst))) _ out h1 in
    let (w, sized, h3) = bind_ok (assert (length src == last - first)) _ out h2 in
    let fits = asserted _ v within in
    let size = asserted _ w sized in
    of_ok (λ o. (length o ≡ length dst) × (last ≤ length dst)) (overwrite first src dst) out
      (
        length-overwrite first src dst
            (omega (tests, asserted (leb first last) u ordered, fits, size)),
        omega (tests, fits),
      )
      h3

read_from_block-Filled :
    (block : Block) (offset : ℕ) (buffer : List ℕ) (r : List ℕ × ℕ)
    → read_from_block block offset buffer ≡ ok r
    → Filled buffer r
unfolding read_from_block
read_from_block-Filled block offset buffer r h =
    let (left, e, h1) = bind_ok (length block.bytes -u offset) _ r h in
    let (last, e', h2) = bind_ok (offset +u min left (length buffer)) _ r h1 in
    let (src, e'', h3) = bind_ok (slice offset last block.bytes) _ r h2 in
    let (filled, copied, h4) = bind_ok (copy_into 0 (min left (length buffer)) src buffer) _ r h3 in
    let (same, within) = length-copy_into 0 (min left (length buffer)) src buffer filled copied in
    of_ok (Filled buffer) (filled, min left (length buffer)) r
      (record { same = same; within = within }) h4

module _ {W : Type 0} (device : Device W) where
  module _ (fuel : ℕ)
      (rounds : (block : Block) (bs : List ℕ)
        → Returns (λ out. length out ≡ length bs) (read_rounds device fuel block bs)) where
    later_rounds :
        (block : Block) (filled : List ℕ) (n : ℕ)
        → n ≤ length filled
        → Returns
            (λ out. length out ≡ length filled)
            (do
              next ← lift (get_next_block block)
              following ← on_fs (load_block device next false)
              rest ← read_rounds device fuel following (drop n filled)
              pure (take n filled ++ rest))
    later_rounds block filled n within = Returns-after (lift (get_next_block block)) _ (λ next.
        Returns-after (on_fs (load_block device next false)) _ (λ following.
          Returns-bind (read_rounds device fuel following (drop n filled)) _
            (rounds following (drop n filled))
            (λ rest e. Returns-pure (take n filled ++ rest) (
              omega (
                arith,
                e,
                within,
                length-append {0} (take n filled) rest,
                length-take {0} n filled,
                length-drop {0} n filled,
              )))))

  length-read_rounds :
      (fuel : ℕ) (block : Block) (bs : List ℕ)
      → Returns (λ out. length out ≡ length bs) (read_rounds device fuel block bs)
  unfolding read_rounds
  length-read_rounds fuel block [] = Returns-pure [] refl
  length-read_rounds zero block (b ∷ bs) = Returns-lift panic (λ a h. ok-of-panic _ a h)
  length-read_rounds (suc fuel) block (b ∷ bs) =
      Returns-after (gets (λ o. o.object.cursor.current_byte)) _ (λ byte.
        Returns-bind (lift (read_from_block block byte (b ∷ bs))) _
          (Returns-lift _ (read_from_block-Filled block byte (b ∷ bs)))
          (λ (filled, n) f. Returns-after (on_object (on_cursor (advance n))) _ (λ u.
            Returns-if (n == length filled) _ _ (λ e. Returns-pure filled f.same)
              (λ e. rw (sym f.same) (
                later_rounds fuel (length-read_rounds fuel) block filled n
                  (omega (arith, f.within, f.same)))))))

  pub length-read : (n : ℕ) → Returns (λ out. length out ≡ n) (read device n)
  unfolding read
  length-read n = Returns-after (gets_ok (λ o. position o.object.cursor)) _ (λ here.
      Returns-after (gets_ok (λ o. o.object.size -u here)) _ (λ left.
        Returns-after (raise_if (ltb left n) Error.out_of_bounds) _ (λ u.
          Returns-after (gets (λ o. o.object.cursor.current_block)) _ (λ index.
            Returns-after (get_nth_block device index) _ (λ block.
              Returns-weaken (read_rounds device (n + 1) block (replicate n 0))
                (λ out e. e ∙ length-replicate {0} n 0)
                (length-read_rounds (n + 1) block (replicate n 0)))))))
