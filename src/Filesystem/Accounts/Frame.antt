-- ===== src/Filesystem/Accounts/Frame.antt =====
-- A flush changes nothing but the store.
use ftn_tananfs.Base.{ℕ, ◌≡◌, refl, Option, none, some, Bool, true, false, if◌then◌else◌, ltb, ◌-◌}
use ftn_tananfs.Outcome.{Outcome, ok, err, panic}
use ftn_tananfs.Outcome.Action.{continue, pure}
use ftn_tananfs.Device.{Device}
use ftn_tananfs.Filesystem.{Filesystem, dirty_page_max}
use ftn_tananfs.Filesystem.Flushing.{flush, flush_since, force_flush}

abbrev pub after {ℓ κ} : {S : Type ℓ} {A : Type κ} → Outcome A × S → S
after (r, s) = s

pub after-pure :
    {S A : Type 0} (a : A) (r : Outcome (Unit {0})) (s : S) → after (continue r (λ _. pure a) s) ≡ s
after-pure a (ok u) s = refl
after-pure a (err e) s = refl
after-pure a panic s = refl

module _ {W : Type 0} where
  -- The same superblock and bitmaps in memory
  pub record Kept (fs fs' : Filesystem W) : Type 0 where
    pub superblock : fs'.superblock ≡ fs.superblock
    pub inodes : fs'.inodes ≡ fs.inodes
    pub blocks : fs'.blocks ≡ fs.blocks

module _ {W : Type 0} (device : Device W) where
  pub force_flush-Kept : (fs : Filesystem W) → Kept fs (after (force_flush device fs))
  unfolding force_flush
  force_flush-Kept fs = record { superblock = refl; inodes = refl; blocks = refl }

  recently-Kept :
      (recent : Bool) (fs : Filesystem W)
      → Kept fs (after ((if recent then pure tt else force_flush device) fs))
  unfolding force_flush
  recently-Kept true fs = record { superblock = refl; inodes = refl; blocks = refl }
  recently-Kept false fs = record { superblock = refl; inodes = refl; blocks = refl }

  flush_since-Kept :
      (last : Option ℕ) (fs : Filesystem W) → Kept fs (after (flush_since device last fs))
  flush_since-Kept none fs = force_flush-Kept fs
  flush_since-Kept (some last) fs =
      let (now, w) = device.now fs.store.world in
      let kept =
        recently-Kept (ltb (now - last) dirty_page_max)
          (record fs { store = record fs.store { world = w } }) in
      record { superblock = kept.superblock; inodes = kept.inodes; blocks = kept.blocks }

  -- A flush leaves the superblock and the bitmaps in memory as they are, however it ends.
  pub flush-Kept : (fs : Filesystem W) → Kept fs (after (flush device fs))
  unfolding flush
  flush-Kept fs = flush_since-Kept fs.store.last_flush fs
