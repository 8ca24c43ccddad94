-- ===== src/RawFile/Reading.antt =====
-- `read` of a raw file against the contents of its chain of blocks.
use ftn_tananfs.Base.{
  ℕ, zero, suc, ◌+◌, ◌-◌, ◌*◌, ◌^◌, ◌≤◌, ◌<◌, ◌≡◌, refl, sym, ap, ◌∙◌, arith, tests, leb, ltb, ◌==◌,
  true, false, Bool-cases, inl, inr, List, [], ◌∷◌, length, take, drop, replicate, length-drop,
  le→ltb-false, length-replicate, lt→leb-false,
}
use ftn_tananfs.Outcome.{ok, -u-ok, +u-ok, ◌+u◌, ◌-u◌}
use ftn_tananfs.Structs.{Block, null_block}
use ftn_tananfs.Cursor.{position}
use ftn_tananfs.Cursor.Moves.{offset, position-current}
use ftn_tananfs.Device.{Device}
use ftn_tananfs.Filesystem.{Filesystem}
use ftn_tananfs.Filesystem.Access.{load_block}
use ftn_tananfs.Filesystem.Resident.{Stays, Stays-refl, Stays-trans, load-IsCached}
use ftn_tananfs.RawFile.{Opened, RawByteFile, walk, get_nth_block}
use ftn_tananfs.RawFile.Read.{read, read_rounds}
use ftn_tananfs.RawFile.Linked.{
  cursor_at, cursor_at-IsValid, IsChain, IsChain-move, IsChain-IsCached, contents,
}
use ftn_tananfs.RawFile.Chain.{reader, read_rounds-contents}
use ftn_tananfs.RawFile.Nth.{
  nth, length-nth, offset-cursor_at, nth-IsChain, IsChain-room, drop-nth, IsFile,
}

module _ {W : Type 0} (device : Device W) (size : ℕ) where
  walk-nth :
      (k : ℕ) (b : Block) (cs : List Block) (o : Opened W)
      → k ≤ length cs
      → IsChain size o.fs b cs
      → (fs' : Filesystem W) × (walk device k b o ≡ (ok (nth k b cs).0, record o { fs = fs' }))
        × Stays o.fs fs'
  unfolding walk
  walk-nth zero b cs o h chain = (o.fs, refl, Stays-refl)
  walk-nth (suc k) b [] o h chain = absurd (omega arith)
  walk-nth (suc k) b (c ∷ cs) o h (IsChain.link cached sized next there chain) =
      let (fs', loaded, stays) = load-IsCached device c o.fs (IsChain-IsCached o.fs c cs chain) in
      let (fs'', walked, stays') =
        walk-nth k c cs (record o { fs = fs' }) (omega arith)
          (IsChain-move size o.fs fs' c cs stays.cached chain) in
      (fs'', rw (next, there, loaded) walked, Stays-trans stays stays')

  -- The ways through `get_nth_block`: the last block, or a walk from the first
  get_last :
      (k : ℕ) (d : Block) (o : Opened W) (fs' : Filesystem W)
      → (o.object.first_block == null_block) ≡ false
      → leb o.object.block_count k ≡ false
      → (k +u 1) ≡ ok (k + 1)
      → (k + 1 == o.object.block_count) ≡ true
      → load_block device o.object.last_block false o.fs ≡ (ok d, fs')
      → get_nth_block device k o ≡ (ok d, record o { fs = fs' })
  unfolding get_nth_block
  get_last k d o fs' e1 e2 e3 e4 e5 = rw (e1, e2, e3, e4, e5) refl

  get_walked :
      (k : ℕ) (b d : Block) (o : Opened W) (fs' fs'' : Filesystem W)
      → (o.object.first_block == null_block) ≡ false
      → leb o.object.block_count k ≡ false
      → (k +u 1) ≡ ok (k + 1)
      → (k + 1 == o.object.block_count) ≡ false
      → load_block device o.object.first_block false o.fs ≡ (ok b, fs')
      → walk device k b (record o { fs = fs' }) ≡ (ok d, record o { fs = fs'' })
      → get_nth_block device k o ≡ (ok d, record o { fs = fs'' })
  unfolding get_nth_block
  get_walked k b d o fs' fs'' e1 e2 e3 e4 e5 e6 = rw (e1, e2, e3, e4, e5) e6

  pub get_nth_block-nth :
      (k : ℕ) (b : Block) (cs : List Block) (o : Opened W)
      → k ≤ length cs
      → length cs < 2 ^ 62
      → IsFile size b cs o.object o.fs
      → (fs' : Filesystem W) × (get_nth_block device k o
          ≡ (ok (nth k b cs).0, record o { fs = fs' }))
        × Stays o.fs fs'
  get_nth_block-nth k b cs o h far f =
      let file = o.object in
      let there = ap (λ i. i == null_block) f.first ∙ f.there in
      let within = lt→leb-false file.block_count k (omega (arith, f.counts)) in
      let next = +u-ok k 1 (omega arith) in
      elim (Bool-cases (k + 1 == file.block_count)) [
        | inl at_last ↦
            let e : length cs ≡ k = omega (tests, f.counts) in
            let d = (nth k b cs).0 in
            let last : file.last_block ≡ d.index = f.last ∙ ap (λ i. (nth i b cs).0.index) e in
            let chain = nth-IsChain size o.fs k b cs f.chain in
            let (fs', loaded, stays) =
              load-IsCached device d o.fs (IsChain-IsCached o.fs d (nth k b cs).1 chain) in
            (
              fs',
              get_last k d o fs' there within next at_last
                  (ap (λ i. load_block device i false o.fs) last ∙ loaded),
              stays,
            )
        | inr before ↦
            let (fs', loaded, stays) =
              load-IsCached device b o.fs (IsChain-IsCached o.fs b cs f.chain) in
            let (fs'', walked, stays') =
              walk-nth k b cs (record o { fs = fs' }) h
                (IsChain-move size o.fs fs' b cs stays.cached f.chain) in
            (
              fs'',
              get_walked k b (nth k b cs).0 o fs' fs'' there within next before
                  (ap (λ i. load_block device i false o.fs) f.first ∙ loaded) walked,
              Stays-trans stays stays',
            )
      ]

  read_through :
      (count here left : ℕ) (d : Block) (bs : List ℕ) (o : Opened W) (fs' : Filesystem W)
      → position o.object.cursor ≡ ok here
      → (o.object.size -u here) ≡ ok left
      → ltb left count ≡ false
      → get_nth_block device o.object.cursor.current_block o ≡ (ok d, record o { fs = fs' })
      → (read_rounds device (count + 1) d (replicate count 0) (record o { fs = fs' })).0 ≡ ok bs
      → (read device count o).0 ≡ ok bs
  unfolding read
  read_through count here left d bs o fs' e1 e2 e3 e4 e5 = rw (e1, e2, e3, e4) e5

  -- A file whose blocks of at most 4096 bytes are a chain in the cache, with the cursor in one of its
  -- blocks: `read` of no more bytes than there are from the cursor to the end of the file succeeds,
  -- and returns exactly the bytes of the concatenated contents of the blocks from the position of
  -- the cursor on.
  pub read-contents :
      (k m count : ℕ) (b : Block) (cs : List Block) (file : RawByteFile) (fs : Filesystem W)
      → 8 < size
      → size ≤ 4096
      → 8 + m < size
      → size * (length cs + 2) < 2 ^ 62
      → IsFile size b cs file fs
      → k < file.block_count
      → offset (cursor_at size k m) + count ≤ file.size
      → (read device count (reader device file size k m fs)).0
        ≡ ok (take count (drop (offset (cursor_at size k m)) (contents b cs)))
  read-contents k m count b cs file fs more small within far f inside enough =
      let here = offset (cursor_at size k m) in
      let few : length cs < 2 ^ 62 = grind arith in
      let le : k ≤ length cs = omega (arith, inside, f.counts) in
      let less : size * (k + 1) < 2 ^ 62 = grind arith in
      let v = cursor_at-IsValid size k m more small (omega arith) less in
      let o = reader device file size k m fs in
      let (fs', found, stays) = get_nth_block-nth k b cs o le few (record {
        chain = f.chain;
        there = f.there;
        first = f.first;
        last = f.last;
        counts = f.counts;
        holds = f.holds;
      }) in
      let c = (nth k b cs).0 in
      let ds = (nth k b cs).1 in
      let chain = IsChain-move size fs fs' c ds stays.cached (nth-IsChain size fs k b cs f.chain) in
      let same = offset-cursor_at size k m in
      let behind : drop m (contents c ds) ≡ drop here (contents b cs) =
        drop-nth size fs k m b cs more le f.chain ∙ ap (λ i. drop i (contents b cs)) (sym same) in
      let buffer = replicate count 0 in
      let sized = length-replicate {0} count 0 in
      let left : length (contents c ds) - m ≡ length (contents b cs) - here =
        sym (length-drop {0} m (contents c ds))
        ∙ ap length behind
        ∙ length-drop {0} here (contents b cs) in
      let room = IsChain-room size fs' c ds chain in
      let total : k + length ds ≡ length cs = omega (arith, length-nth k b cs le) in
      let far' : size * (k + length ds + 2) < 2 ^ 62 = rw total far in
      let bytes = take count (drop here (contents b cs)) in
      let rounds : (read_rounds device (count + 1) c buffer (reader device file size k m fs')).0
          ≡ ok bytes =
        read_rounds-contents device file size (count + 1) k m c ds buffer fs' more small within far'
          chain (omega (arith, left, sized, enough, f.holds, room, within)) (omega (arith, sized))
        ∙ ap (λ n. ok (take n (drop m (contents c ds)))) sized
        ∙ ap (λ t. ok (take count t)) behind in
      read_through count here (file.size - here) c bytes o fs'
        (position-current (cursor_at size k m) v) (-u-ok file.size here (omega (arith, enough)))
        (le→ltb-false (file.size - here) count (omega (arith, enough))) found rounds
