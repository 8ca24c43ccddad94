-- ===== src/Filesystem/Persistence/Lines.antt =====
-- A loop of `flush_cache` on a device that does not fail.
use native.Mathlib.Nat.{mul-le-mul_right}
use ftn_tananfs.Base.{
  ℕ, ◌+◌, ◌*◌, ◌≤◌, ◌<◌, ◌≡◌, refl, sym, ap, ◌∙◌, arith, ◌==◌, true, false, Bool-cases, ◌⊎◌, inl,
  inr, some, List, [], ◌∷◌, length, ==→eq,
}
use ftn_tananfs.Outcome.{ok}
use ftn_tananfs.Outcome.Action.{Action}
use ftn_tananfs.Block.{overwrite}
use ftn_tananfs.Block.Data.{length-overwrite}
use ftn_tananfs.Cache.{Map, CacheLine, lookup}
use ftn_tananfs.Device.{Device}
use ftn_tananfs.Device.Holds.{Holds, IsApart, Holds-overwrite, Holds-apart}
use ftn_tananfs.Device.Memory.{IsMemory, Writes}
use ftn_tananfs.Filesystem.Flushing.{flush_line, flush_lines}

-- The keys of a map grow, from `least` on, and each line is good under its key.
pub data IsLined {T : Type 0} (good : ℕ → T → Type 0) : ℕ → Map (CacheLine T) → Type 0 where
  none_left : {least : ℕ} → IsLined good least []
  one_more :
      {least k : ℕ} {line : CacheLine T} {m : Map (CacheLine T)}
      → least ≤ k
      → good k line.value
      → IsLined good (k + 1) m
      → IsLined good least ((k, line) ∷ m)

pub IsLined-map :
    {T : Type 0} {P Q : ℕ → T → Type 0} (least : ℕ) (m : Map (CacheLine T))
    → ((k : ℕ) (v : T) → P k v → Q k v)
    → IsLined P least m
    → IsLined Q least m
IsLined-map least [] f IsLined.none_left = IsLined.none_left
IsLined-map least ((k, line) ∷ m) f (IsLined.one_more h g l) =
    IsLined.one_more h (f k line.value g) (IsLined-map (k + 1) m f l)

pub IsLined-lookup :
    {T : Type 0} {P : ℕ → T → Type 0} (least : ℕ) (m : Map (CacheLine T)) (j : ℕ)
    (line : CacheLine T)
    → IsLined P least m
    → lookup j m ≡ some line
    → P j line.value
IsLined-lookup least [] j line IsLined.none_left found = cc
IsLined-lookup {T} {P} least ((k, top) ∷ m) j line (IsLined.one_more h g l) found =
    elim (Bool-cases (j == k)) [
      | inl same ↦
          let line_is : some top ≡ some line = simp same at found in
          let e : top ≡ line = cc in
          let j_is : k ≡ j = sym (==→eq j k same) in rw (sym j_is, sym e) g
      | inr other ↦ IsLined-lookup (k + 1) m j line l (simp other at found)
    ]

-- `count` structures of `size` bytes each, from `base` on
module _ {W T : Type 0} {device : Device W} (memory : IsMemory device) (base size count : ℕ)
    (image : T → List ℕ) (write : T → Action W (Unit {0})) where
  -- The structure with index `k`, which is written at its place
  pub record IsWritable (k : ℕ) (value : T) : Type 0 where
    pub below : k < count
    pub sized : length (image value) ≡ size
    pub writes : Writes memory (base + k * size) (image value) (write value)

  -- `n` bytes at `p` that are in front of the structures from `least` on, or behind them all
  abbrev pub IsOutside : ℕ → ℕ → ℕ → Type 0
  IsOutside least p n = (p + n ≤ base + least * size) ⊎ (base + count * size ≤ p)

  pub record Flushed (least : ℕ) (m : Map (CacheLine T)) (w w' : W) : Type 0 where
    pub same_size : length (memory.content w') ≡ length (memory.content w)
    pub outside :
        (p : ℕ) (bs : List ℕ)
        → IsOutside least p (length bs)
        → Holds p bs (memory.content w)
        → Holds p bs (memory.content w')
    pub written :
        (k : ℕ) (line : CacheLine T)
        → lookup k m ≡ some line
        → line.modified ≡ true
        → Holds (base + k * size) (image line.value) (memory.content w')

  step : (i j : ℕ) → i ≤ j → i * size ≤ j * size
  step i j h = mul-le-mul_right size h

  outside-IsApart :
      (least k p n : ℕ)
      → least ≤ k
      → k < count
      → IsOutside least p n
      → IsApart p n (base + k * size) size
  outside-IsApart least k p n h below (inl before) = inl (omega (arith, step least k h, before))
  outside-IsApart least k p n h below (inr behind) =
      let e : (k + 1) * size ≡ k * size + size = grind arith in
      inr (omega (arith, e, step (k + 1) count (omega arith), behind))

  IsOutside-more : (least k p n : ℕ) → least ≤ k → IsOutside least p n → IsOutside (k + 1) p n
  IsOutside-more least k p n h (inl before) =
      inl (omega (arith, step least (k + 1) (omega arith), before))
  IsOutside-more least k p n h (inr behind) = inr behind

  fits_in :
      (k n : ℕ) (value : T)
      → IsWritable k value
      → base + count * size ≤ n
      → base + k * size + length (image value) ≤ n
  fits_in k n value g room =
      let e : (k + 1) * size ≡ k * size + size = grind arith in
      omega (arith, g.sized, e, step (k + 1) count (omega (arith, g.below)), room)

  module _ (least k : ℕ) (line : CacheLine T) (m : Map (CacheLine T)) (w w1 w' : W) (h : least ≤ k)
      (g : IsWritable k line.value) (f : Flushed (k + 1) m w1 w') where
    -- The line in front was written, and then those behind it.
    dirty_first :
        base + count * size ≤ length (memory.content w)
        → line.modified ≡ true
        → memory.content w1 ≡ overwrite (base + k * size) (image line.value) (memory.content w)
        → Flushed least ((k, line) ∷ m) w w'
    dirty_first room dirty c1 =
        let place = base + k * size in
        let bs = image line.value in
        let e : (k + 1) * size ≡ k * size + size = grind arith in
        let fits : place + length bs ≤ length (memory.content w) = fits_in k _ line.value g room in
        let here : Holds place bs (memory.content w1) =
          rw c1 (Holds-overwrite place bs (memory.content w) (omega (arith, fits))) in
        record {
          same_size =
              f.same_size ∙ ap length c1 ∙ length-overwrite place bs (memory.content w) fits;
          outside = λ p src o stands. f.outside p src (IsOutside-more least k p (length src) h o) (
              rw c1 (
                Holds-apart p place src bs (memory.content w) fits
                  (rw g.sized (outside-IsApart least k p (length src) h g.below o)) stands));
          written = λ j l found changed. elim (Bool-cases (j == k)) [
            | inl same ↦
                let l_is : some line ≡ some l = simp same at found in
                let line_is : line ≡ l = cc in
                let j_is : k ≡ j = sym (==→eq j k same) in
                let kept = f.outside place bs (inl (omega (arith, g.sized, e))) here in
                rw (sym j_is, sym line_is) kept
            | inr other ↦ f.written j l (simp other at found) changed
          ];
        }

    clean_first : line.modified ≡ false → w1 ≡ w → Flushed least ((k, line) ∷ m) w w'
    clean_first clean same_world = record {
      same_size = f.same_size ∙ ap (λ v. length (memory.content v)) same_world;
      outside = λ p src o stands.
          f.outside p src (IsOutside-more least k p (length src) h o) (rw same_world stands);
      written = λ j l found changed. elim (Bool-cases (j == k)) [
        | inl same ↦
            let l_is : some line ≡ some l = simp same at found in
            let line_is : line ≡ l = cc in
            let never : false ≡ true =
              sym clean ∙ ap (λ (x : CacheLine T). x.modified) line_is ∙ changed in
            cc
        | inr other ↦ f.written j l (simp other at found) changed
      ];
    }

  -- With keys that grow and structures of the right size, the loop succeeds: it writes each modified
  -- line at its place, and nothing outside of the structures from the first key on.
  pub flush_lines-Flushed :
      (least : ℕ) (m : Map (CacheLine T)) (w : W)
      → IsLined IsWritable least m
      → base + count * size ≤ length (memory.content w)
      → (m' : Map (CacheLine T)) × (w' : W) × (flush_lines write (m, w) ≡ (ok tt, (m', w')))
        × Flushed least m w w'
  unfolding flush_lines flush_line
  flush_lines-Flushed least [] w IsLined.none_left room = (
    [],
    w,
    refl,
    record { same_size = refl; outside = λ p bs o h. h; written = λ k l found c. cc },
  )
  flush_lines-Flushed least ((k, line) ∷ m) w (IsLined.one_more h g l) room =
      elim (Bool-cases line.modified) [
        | inl dirty ↦
            let fits = fits_in k (length (memory.content w)) line.value g room in
            let (w1, e1, c1) = g.writes.at w fits in
            let len =
              ap length c1
              ∙ length-overwrite (base + k * size) (image line.value) (memory.content w) fits in
            let (m', w', run, f) = flush_lines-Flushed (k + 1) m w1 l (rw len room) in
            (
              (k, record line { modified = false }) ∷ m',
              w',
              rw (dirty, e1, run) refl,
              dirty_first least k line m w w1 w' h g f room dirty c1,
            )
        | inr clean ↦
            let (m', w', run, f) = flush_lines-Flushed (k + 1) m w l room in
            (
              (k, line) ∷ m',
              w',
              rw (clean, run) refl,
              clean_first least k line m w w w' h g f clean refl,
            )
      ]
