-- ===== src/Filesystem/Lines.antt =====
-- What the loops of `flush_cache` leave in the cache.
use ftn_tananfs.Base.{
  ℕ, suc, ◌≡◌, ◌≢◌, refl, ap, sym, ◌∙◌, ◌==◌, Bool, true, false, Bool-cases, Option, none, some, [],
  ◌∷◌, inl, inr, length,
}
use ftn_tananfs.Error.{Error}
use ftn_tananfs.Outcome.{Outcome, ok, err, panic}
use ftn_tananfs.Outcome.Action.{Action, continue, pure}
use ftn_tananfs.Cache.{Map, CacheLine, lookup}
use ftn_tananfs.Filesystem.Flushing.{flush_line, flush_lines, next_line}

-- The value of a line that may be there
abbrev pub value_of : {T : Type 0} → Option (CacheLine T) → Option T
value_of none = none
value_of (some line) = some line.value

module _ {W T : Type 0} (write : T → Action W (Unit {0})) where
  -- What one round of the loop comes to: an unmodified line is left, a modified one is written.
  data Round (line : CacheLine T) (w : W) : Outcome (CacheLine T) × W → Type 0 where
    clean :
        {w' : W} (line' : CacheLine T)
        → line'.value ≡ line.value
        → line'.modified ≡ false
        → Round line w (ok line', w')
    failed : {w' : W} (e : Error) → Round line w (err e, w')
    stopped : {w' : W} → Round line w (panic, w')

  written-Round :
      (line : CacheLine T) (w w' : W) (r : Outcome (Unit {0}))
      → Round line w (continue r (λ _. pure (record line { modified = false })) w')
  written-Round line w w' (ok u) = Round.clean (record line { modified = false }) refl refl
  written-Round line w w' (err e) = Round.failed e
  written-Round line w w' panic = Round.stopped

  marked-Round :
      (value : T) (modified : Bool) (atime : ℕ) (w : W)
      → Round
          (record { value = value; modified = modified; atime = atime })
          w
          (flush_line write (record { value = value; modified = modified; atime = atime }) w)
  unfolding flush_line
  marked-Round value true atime w =
      let (r, w') = write value w in
      written-Round (record { value = value; modified = true; atime = atime }) w w' r
  marked-Round value false atime w =
      Round.clean (record { value = value; modified = false; atime = atime }) refl refl

  -- The lines that a loop leaves: as many, under the same keys and with the same values; and if it
  -- did not fail, none of them is modified.
  pub record Settled (m m' : Map (CacheLine T)) (r : Outcome (Unit {0})) : Type 0 where
    pub size : length m' ≡ length m
    pub values : (j : ℕ) → value_of (lookup j m') ≡ value_of (lookup j m)
    pub settled :
        r ≡ ok tt → (j : ℕ) (line : CacheLine T) → lookup j m' ≡ some line → line.modified ≡ false

  Settled-refl : (m : Map (CacheLine T)) (r : Outcome (Unit {0})) → r ≢ ok tt → Settled m m r
  Settled-refl m r differs = record {
    size = refl;
    values = λ j. refl;
    settled = λ e. absurd (differs e);
  }

  Settled-cons :
      (k : ℕ) (line line' : CacheLine T) (m m' : Map (CacheLine T)) (r : Outcome (Unit {0}))
      → line'.value ≡ line.value
      → line'.modified ≡ false
      → Settled m m' r
      → Settled ((k, line) ∷ m) ((k, line') ∷ m') r
  Settled-cons k line line' m m' r same idle s = record {
    size = ap suc s.size;
    values = λ j. elim (Bool-cases (j == k)) [ inl e ↦ rw (e, same) | inr ne ↦ rw ne (s.values j) ];
    settled = λ done j l found. elim (Bool-cases (j == k)) [
      | inl e ↦
          let l_is : some line' ≡ some l = simp e at found in
          let line_is : line' ≡ l = cc in sym (ap (λ (x : CacheLine T). x.modified) line_is) ∙ idle
      | inr ne ↦ s.settled done j l (simp ne at found)
    ];
  }

  next_line-Settled :
      (k : ℕ) (line : CacheLine T) (m : Map (CacheLine T)) (w : W)
      (rest : W → Outcome (Unit {0}) × (Map (CacheLine T) × W))
      → ((w : W) → let (r, (m', w')) = rest w in Settled m m' r)
      → {r : Outcome (CacheLine T) × W} → Round line w r
      → let (r', (m', w')) = next_line k line m rest r in Settled ((k, line) ∷ m) m' r'
  next_line-Settled k line m w rest later (Round.clean {w'} line' same idle) =
      Settled-cons k line line' m (rest w').1.0 (rest w').0 same idle (later w')
  next_line-Settled k line m w rest later (Round.failed e) =
      Settled-refl ((k, line) ∷ m) (err e) (λ p. cc)
  next_line-Settled k line m w rest later Round.stopped =
      Settled-refl ((k, line) ∷ m) panic (λ p. cc)

  -- Whatever the device answers, the loop of `flush_cache` keeps every cached value, and if it
  -- succeeds, no line is modified any more.
  pub flush_lines-Settled :
      (m : Map (CacheLine T)) (w : W)
      → let (r, (m', w')) = flush_lines write (m, w) in Settled m m' r
  unfolding flush_lines
  flush_lines-Settled [] w = record {
    size = refl;
    values = λ j. refl;
    settled = λ done j line found. cc;
  }
  flush_lines-Settled ((k, line) ∷ m) w =
      next_line-Settled k line m w (λ w'. flush_lines write (m, w')) (flush_lines-Settled m)
        (marked-Round line.value line.modified line.atime w)
