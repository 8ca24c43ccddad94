-- ===== src/Filesystem/Invariant/Shared.antt =====
-- Invariants of the filesystem through the calls on an object that shares it.
use ftn_tananfs.Outcome.{Outcome, ok, err, panic}
use ftn_tananfs.Outcome.Action.{Action, modify, rescue, raise, pure}
use ftn_tananfs.Outcome.Keeps.{
  Keeps, Keeps-pure, Keeps-raise, Keeps-lift, Keeps-bind, Keeps-rescue, keeps_rules,
}
use ftn_tananfs.Filesystem.{Filesystem}
use ftn_tananfs.Filesystem.Using.{Using, on_object, on_fs, on_part, with_object, scoped, finished}

-- The filesystem that is shared has `P`.
pub record Shares {T W : Type 0} (P : Filesystem W → Type 0) (u : Using T W) : Type 0 where
  pub fs : P u.fs

module _ {T W : Type 0} {P : Filesystem W → Type 0} where
  Keeps-dropped :
      (on_drop : Action (Using T W) (Unit {0}))
      → Keeps (Shares P) on_drop
      → Keeps (Shares P) (rescue on_drop (λ e. pure tt))
  Keeps-dropped on_drop kd = Keeps-rescue on_drop (λ e. pure tt) kd (λ e. Keeps-pure tt)

module _ {T W A : Type 0} {P : Filesystem W → Type 0} where
  pub Keeps-on_object : (m : Action T A) → Keeps (Shares {T = T} P) (on_object m)
  Keeps-on_object m = record { at = λ u h. record { fs = h.fs } }

  pub Keeps-on_fs : (m : Action (Filesystem W) A) → Keeps P m → Keeps (Shares {T = T} P) (on_fs m)
  Keeps-on_fs m km = record { at = λ u h. record { fs = km.at u.fs h.fs } }

  pub Keeps-on_part :
      {U : Type 0} (get : T → U) (put : U → T → T) (m : Action (Using U W) A)
      → Keeps (Shares P) m
      → Keeps (Shares P) (on_part get put m)
  Keeps-on_part get put m km = record {
    at = λ u h. record {
      fs = (km.at (record { object = get u.object; fs = u.fs }) (record { fs = h.fs })).fs;
    };
  }

  pub Keeps-with_object :
      (object : T) (m : Action (Using T W) A) → Keeps (Shares P) m → Keeps P (with_object object m)
  Keeps-with_object object m km = record {
    at = λ fs h. (km.at (record { object = object; fs = fs }) (record { fs = h })).fs;
  }

  Keeps-finished :
      (r : Outcome A) (on_drop : Action (Using T W) (Unit {0}))
      → Keeps (Shares P) on_drop
      → Keeps (Shares P) (finished r on_drop)
  Keeps-finished (ok a) on_drop kd =
      Keeps-bind (rescue on_drop (λ e. pure tt)) (λ u. pure a) (Keeps-dropped on_drop kd)
        (λ u. Keeps-pure a)
  Keeps-finished (err e) on_drop kd =
      Keeps-bind (rescue on_drop (λ e. pure tt)) (λ u. raise e) (Keeps-dropped on_drop kd)
        (λ u. Keeps-raise e)
  Keeps-finished panic on_drop kd = Keeps-lift panic

  pub Keeps-scoped :
      (on_drop : Action (Using T W) (Unit {0})) (m : Action (Using T W) A)
      → Keeps (Shares P) on_drop
      → Keeps (Shares P) m
      → Keeps (Shares P) (scoped on_drop m)
  Keeps-scoped on_drop m kd km = record {
    at = λ u h. (Keeps-finished (m u).0 on_drop kd).at (m u).1 (km.at u h);
  }

module _ {T W : Type 0} {P : Filesystem W → Type 0} where
  pub Keeps-object :
      (f : Using T W → T) → Keeps (Shares P) (modify (λ u. record u { object = f u }))
  Keeps-object f = record { at = λ u h. record { fs = h.fs } }

pub ruleset shared_rules = (
  keeps_rules, Keeps-on_object, Keeps-on_fs, Keeps-on_part, Keeps-with_object, Keeps-scoped,
  Keeps-object,
)
