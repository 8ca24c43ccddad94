-- ===== src/RawFile/Writing.antt =====
-- `write` of a raw file within the blocks that it has.
use mathlib.Core.Path.{subst}
use ftn_tananfs.Base.{
  ℕ, IsDistinct, ◌+◌, ◌-◌, ◌*◌, ◌%◌, ◌^◌, ◌≤◌, ◌<◌, ◌≡◌, refl, sym, ap, ◌∙◌, arith, ◌==◌, ◌&&◌,
  Bool, true, false, ltb, List, length, le→ltb-false, ne→==-false,
}
use ftn_tananfs.Outcome.{ok, %u-ok}
use ftn_tananfs.Structs.{Block, null_block}
use ftn_tananfs.Cursor.{BlockCursor, position}
use ftn_tananfs.Cursor.Moves.{IsValid, offset, room, position-current, padded_block-room}
use ftn_tananfs.Device.{Device}
use ftn_tananfs.Filesystem.{Filesystem}
use ftn_tananfs.Filesystem.Access.{flush_block}
use ftn_tananfs.Filesystem.Quiet.{IsQuiet, IsQuiet-framed}
use ftn_tananfs.RawFile.{Opened, RawByteFile, get_nth_block}
use ftn_tananfs.RawFile.Write.{write, write_rounds, ends_full, append_if}
use ftn_tananfs.RawFile.Linked.{cursor_at, cursor_at-IsValid, IsChain-move}
use ftn_tananfs.RawFile.Chain.{reader}
use ftn_tananfs.RawFile.Nth.{
  nth, length-nth, nth-IsChain, length-contents, offset-cursor_at, IsFile,
}
use ftn_tananfs.RawFile.Reading.{get_nth_block-nth}
use ftn_tananfs.RawFile.Distinct.{numbers}
use ftn_tananfs.RawFile.Rewriting.{Rewritten, Rewritten-loaded}
use ftn_tananfs.RawFile.Rewritten.{nth-IsDistinct, Rewritten-nth, Rewritten-IsFile}
use ftn_tananfs.RawFile.WriteRounds.{write_rounds-Ran}

both_false : (p : Bool) → (p && false) ≡ false
both_false true = refl
both_false false = refl

ends_full-within :
    (file : RawByteFile)
    → IsValid file.cursor
    → offset file.cursor < file.size
    → ends_full file ≡ ok false
unfolding ends_full
ends_full-within file v h =
    let pos : 0 < room file.cursor = omega (arith, v.paddings) in
    rw
      (
        ne→==-false file.size 0 (λ e. absurd (omega arith)),
        position-current file.cursor v,
        padded_block-room file.cursor v,
        %u-ok (offset file.cursor) (room file.cursor) pos,
        ne→==-false (offset file.cursor) file.size (λ e. absurd (omega arith)),
      )
      (ap ok (both_false (offset file.cursor % room file.cursor == 0)))

module _ {W : Type 0} (device : Device W) (size : ℕ) where
  write_through :
      (buffer : List ℕ) (here : ℕ) (d last : Block) (cursor : BlockCursor) (o : Opened W)
      (fs1 fs2 fs3 : Filesystem W)
      → (o.object.first_block == null_block) ≡ false
      → ends_full o.object ≡ ok false
      → get_nth_block device o.object.cursor.current_block o ≡ (ok d, record o { fs = fs1 })
      → write_rounds device (length buffer + 1) d buffer (record o { fs = fs1 })
        ≡ (ok last, record { object = record o.object { cursor = cursor }; fs = fs2 })
      → flush_block device last fs2 ≡ (ok tt, fs3)
      → position cursor ≡ ok here
      → ltb o.object.size here ≡ false
      → write device buffer o
        ≡ (ok tt, record { object = record o.object { cursor = cursor }; fs = fs3 })
  unfolding write append_if
  write_through buffer here d last cursor o fs1 fs2 fs3 e1 e2 e3 e4 e5 e6 e7 =
      rw (e1, e2, e3, e4, e5, e6, e7) refl

  -- A write to a file, and what it came to
  pub record Written (here : ℕ) (buffer : List ℕ) (b : Block) (cs : List Block) (file : RawByteFile)
      (o : Opened W) : Type 0 where
    pub cursor : BlockCursor
    pub after : Filesystem W
    pub first : Block
    pub others : List Block
    pub run :
        write device buffer o
        ≡ (ok tt, record { object = record file { cursor = cursor }; fs = after })
    pub rewritten : Rewritten size here buffer o.fs b cs after first others
    pub is_file : IsFile size first others (record file { cursor = cursor }) after
    pub valid : IsValid cursor
    pub at : offset cursor ≡ here + length buffer

  -- A file whose blocks of at most 4096 bytes are a chain of different blocks in the cache, with the
  -- cursor in one of its blocks, while no flush is due: `write` of some bytes that end within the
  -- file succeeds. The file has the same blocks then, with the bytes written over their contents from the cursor on.
  pub write-Written :
      (k m : ℕ) (buffer : List ℕ) (b : Block) (cs : List Block) (file : RawByteFile)
      (fs : Filesystem W)
      → 8 < size
      → size ≤ 4096
      → 8 + m < size
      → size * (length cs + 2) < 2 ^ 62
      → IsFile size b cs file fs
      → IsDistinct (numbers b cs)
      → IsQuiet device fs
      → k < file.block_count
      → 0 < length buffer
      → offset (cursor_at size k m) + length buffer ≤ file.size
      → Written (offset (cursor_at size k m)) buffer b cs file (reader device file size k m fs)
  write-Written k m buffer b cs file fs more small within far f distinct quiet inside some_left
        enough =
      let here = offset (cursor_at size k m) in
      let few : length cs < 2 ^ 62 = grind arith in
      let le : k ≤ length cs = omega (arith, inside, f.counts) in
      let less : size * (k + 1) < 2 ^ 62 = grind arith in
      let v = cursor_at-IsValid size k m more small (omega arith) less in
      let o = reader device file size k m fs in
      let (fs', found, stays) = get_nth_block-nth device size k b cs o le few (record {
        chain = f.chain;
        there = f.there;
        first = f.first;
        last = f.last;
        counts = f.counts;
        holds = f.holds;
      }) in
      let d = (nth k b cs).0 in
      let ds = (nth k b cs).1 in
      let chain = IsChain-move size fs fs' d ds stays.cached (nth-IsChain size fs k b cs f.chain) in
      let total : k + length ds ≡ length cs = omega (arith, length-nth k b cs le) in
      let far' : size * (k + length ds + 2) < 2 ^ 62 = rw total far in
      let row : (size - 8) * (k + (length ds + 1)) ≡ (size - 8) * k + (size - 8) * (length ds + 1) =
        grind arith in
      let sum : (size - 8) * (k + (length ds + 1)) ≡ (size - 8) * (length cs + 1) =
        ap (λ i. (size - 8) * i) (omega (arith, total)) in
      let r =
        write_rounds-Ran device file size (length buffer + 1) k m d ds buffer fs' more small within
          far' chain (nth-IsDistinct k b cs distinct)
          (IsQuiet-framed device fs fs' stays.framed quiet)
          (omega (
            arith,
            enough,
            f.holds,
            length-contents size fs b cs more f.chain,
            length-contents size fs' d ds more chain,
            row,
            sum,
            offset-cursor_at size k m,
          ))
          some_left (omega arith) in
      let (b', cs', rewritten) =
        Rewritten-nth size k m buffer fs r.flushed b r.first cs r.others (omega (arith, more)) le
          distinct f.chain
          (Rewritten-loaded size m buffer fs fs' r.flushed d r.first ds r.others stays
            r.rewritten) in
      let rewritten' =
        subst (λ i. Rewritten size i buffer fs b cs r.flushed b' cs')
          (sym (offset-cursor_at size k m)) rewritten in
      record {
        cursor = r.cursor;
        after = r.flushed;
        first = b';
        others = cs';
        run =
            write_through buffer (here + length buffer) d r.last r.cursor o fs' r.ended r.flushed
              (ap (λ i. i == null_block) f.first ∙ f.there)
              (ends_full-within o.object v (omega (arith, enough, some_left))) found r.loop r.flush
              (position-current r.cursor r.valid ∙ ap ok r.at)
              (le→ltb-false file.size (here + length buffer) (omega (arith, enough)));
        rewritten = rewritten';
        is_file =
            Rewritten-IsFile size here buffer fs r.flushed b b' cs cs' file
              (record file { cursor = r.cursor }) (omega (arith, enough, f.holds)) f rewritten' refl
              refl refl refl;
        valid = r.valid;
        at = r.at;
      }
