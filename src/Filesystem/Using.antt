-- ===== src/Filesystem/Using.antt =====
-- An object that holds the shared filesystem (`Arc<Mutex<Filesystem>>`), with the filesystem as it
-- is. A lock is taken for one call at a time and fails only after a panic, which ends a run: a panic
-- stops the model where it happens, and the drops of unwinding are left out.
use ftn_tananfs.Outcome.{Outcome, ok, err, panic}
use ftn_tananfs.Outcome.Action.{Action, ◌>>◌, rescue, pure, raise, lift}
use ftn_tananfs.Filesystem.{Filesystem}

pub record Using (T W : Type 0) : Type 0 where
  pub object : T
  pub fs : Filesystem W

module _ {T W A : Type 0} where
  abbrev pub on_object : Action T A → Action (Using T W) A
  on_object m u = let (r, object) = m u.object in (r, record u { object = object })

  abbrev pub on_fs : Action (Filesystem W) A → Action (Using T W) A
  on_fs m u = let (r, fs) = m u.fs in (r, record u { fs = fs })

  -- A call on the part `get` of the object, which shares the filesystem
  abbrev pub on_part :
      {U : Type 0} → (T → U) → (U → T → T) → Action (Using U W) A → Action (Using T W) A
  on_part get put m u =
      let (r, v) = m (record { object = get u.object; fs = u.fs }) in
      (r, record { object = put v.object u.object; fs = v.fs })

  -- A call on an object of its own
  abbrev pub with_object : T → Action (Using T W) A → Action (Filesystem W) A
  with_object object m fs = let (r, v) = m (record { object = object; fs = fs }) in (r, v.fs)

module _ {T W A : Type 0} where
  abbrev pub finished : Outcome A → Action (Using T W) (Unit {0}) → Action (Using T W) A
  finished (ok a) on_drop = rescue on_drop (λ e. pure tt) >> pure a
  finished (err e) on_drop = rescue on_drop (λ e. pure tt) >> raise e
  finished panic on_drop = lift panic

  -- The scope of an object: at its end, `drop` is called, and its errors are
  -- logged only. A panic ends the run without it.
  abbrev pub scoped : Action (Using T W) (Unit {0}) → Action (Using T W) A → Action (Using T W) A
  scoped on_drop m u = let (r, v) = m u in finished r on_drop v
