-- ===== src/Cache/Lines.antt =====
-- What a lookup sees of the cache after each operation.
use ftn_tananfs.Base.{
  ℕ, ◌≡◌, ◌≢◌, refl, arith, ◌==◌, if◌then◌else◌, Bool, none, some, [], ◌∷◌, Option-cases, inl, inr,
}
use ftn_tananfs.Cache.{Map, lookup, insert, remove, CacheLine, set_line, update, new_line}

module _ {V : Type 0} where
  pub lookup-insert :
      (k j : ℕ) (v : V) (m : Map V)
      → lookup j (insert k v m) ≡ (if j == k then some v else lookup j m)
  unfolding insert
  lookup-insert k j v [] = refl
  lookup-insert k j v ((i, u) ∷ m) = ground (arith, lookup-insert k j v m)

  pub lookup-remove_ne : (k j : ℕ) (m : Map V) → j ≢ k → lookup j (remove k m) ≡ lookup j m
  unfolding remove
  lookup-remove_ne k j [] h = refl
  lookup-remove_ne k j ((i, u) ∷ m) h = ground (arith, lookup-remove_ne k j m)

module _ {T : Type 0} (eq : T → T → Bool) where
  set_line_absent :
      (index : ℕ) (value : T) (now : ℕ) (m : Map (CacheLine T))
      → lookup index m ≡ none
      → set_line eq index value now m ≡ insert index (new_line value now) m
  unfolding set_line
  set_line_absent index value now m absent = rw (set_line, absent) refl

  set_line_present :
      (index : ℕ) (value : T) (now : ℕ) (line : CacheLine T) (m : Map (CacheLine T))
      → lookup index m ≡ some line
      → set_line eq index value now m ≡ insert index (update eq value now line) m
  unfolding set_line
  set_line_present index value now line m present = rw (set_line, present) refl

  -- After `set_line`, the line holds the value, unless an old value passed for equal, which then
  -- stays; every other line is as it was.
  pub lookup-set_line :
      (index j : ℕ) (value : T) (now : ℕ) (m : Map (CacheLine T))
      → lookup j (set_line eq index value now m) ≡ (
          if j == index
          then some (elim (lookup index m) [
            | none ↦ new_line value now
            | some line ↦ update eq value now line
          ])
          else lookup j m)
  lookup-set_line index j value now m = elim (Option-cases (lookup index m)) [
    | inl absent ↦
        rw (set_line_absent index value now m absent, absent)
          (lookup-insert index j (new_line value now) m)
    | inr (line, present) ↦
        rw (set_line_present index value now line m present, present)
          (lookup-insert index j (update eq value now line) m)
  ]
