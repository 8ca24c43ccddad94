-- ===== src/Device/Memory.antt =====
-- A device that does not fail, by what `Seek`, `Read` and `Write` of std promise of a file or a block
-- device of a fixed size: a row of bytes with a position in it.
use ftn_tananfs.Base.{ℕ, ◌+◌, ◌≤◌, ◌≡◌, refl, sym, ◌∙◌, List, length, take, drop}
use ftn_tananfs.Outcome.{ok}
use ftn_tananfs.Outcome.Action.{Action, ◌>>=◌, ◌>>◌}
use ftn_tananfs.Block.{overwrite}
use ftn_tananfs.Device.{Device}
use ftn_tananfs.Device.Holds.{Holds}

pub record IsMemory {W : Type 0} (device : Device W) : Type 0 where
  pub content : W → List ℕ
  pub place : W → ℕ
  pub seeks :
      (p : ℕ) (w : W)
      → (w' : W) × (device.seek p w ≡ (ok tt, w')) × (content w' ≡ content w) × (place w' ≡ p)
  pub reads :
      (n : ℕ) (w : W)
      → place w + n ≤ length (content w)
      → (w' : W) × (device.read_exact n w ≡ (ok (take n (drop (place w) (content w))), w'))
        × (content w' ≡ content w)
  pub writes :
      (bs : List ℕ) (w : W)
      → place w + length bs ≤ length (content w)
      → (w' : W) × (device.write_all bs w ≡ (ok tt, w'))
        × (content w' ≡ overwrite (place w) bs (content w))
  pub ticks : (w : W) → content (device.now w).1 ≡ content w

module _ {W : Type 0} {device : Device W} (memory : IsMemory device) where
  -- `write` writes the bytes `bs` at `p`.
  pub record Writes (p : ℕ) (bs : List ℕ) (write : Action W (Unit {0})) : Type 0 where
    pub at :
        (w : W)
        → p + length bs ≤ length (memory.content w)
        → (w' : W) × (write w ≡ (ok tt, w'))
          × (memory.content w' ≡ overwrite p bs (memory.content w))

  -- `read` reads a value from `bs`, where these stand at `p`.
  pub record Reads {A : Type 0} (p : ℕ) (bs : List ℕ) (a : A) (read : Action W A) : Type 0 where
    pub at :
        (w : W)
        → p + length bs ≤ length (memory.content w)
        → Holds p bs (memory.content w)
        → (w' : W) × (read w ≡ (ok a, w')) × (memory.content w' ≡ memory.content w)

  pub Writes-seek : (p : ℕ) (bs : List ℕ) → Writes p bs (device.seek p >> device.write_all bs)
  Writes-seek p bs = record {
    at = λ w h.
        let (w1, e1, c1, at1) = memory.seeks p w in
        let (w2, e2, c2) = memory.writes bs w1 (rw (c1, at1) h) in
        (w2, rw (e1, e2) refl, c2 ∙ rw (c1, at1) refl);
  }

  pub Reads-seek :
      {A : Type 0} (p n : ℕ) (bs : List ℕ) (k : List ℕ → Action W A) (a : A)
      → length bs ≡ n
      → ((w : W) → k bs w ≡ (ok a, w))
      → Reads p bs a (device.seek p >> (device.read_exact n >>= k))
  Reads-seek p n bs k a size done = record {
    at = λ w h there.
        let (w1, e1, c1, at1) = memory.seeks p w in
        let (w2, e2, c2) = memory.reads n w1 (rw (c1, at1, sym size) h) in
        let raw : take n (drop (memory.place w1) (memory.content w1)) ≡ bs =
          rw (c1, at1, sym size) there in
        (w2, rw (e1, e2, raw) (done w2), c2 ∙ c1);
  }
