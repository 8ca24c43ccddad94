-- ===== src/Fuse/Mounted.antt =====
-- `init` of src/filesystem/fuse.rs, and the requests after it: what the free counts come to.
use ftn_tananfs.Base.{
  ℕ, suc, ◌+◌, ◌^◌, ◌≤◌, ◌<◌, ◌≡◌, ◌∙◌, sym, refl, arith, true, false, Bool-cases, inl, inr,
}
use ftn_tananfs.Error.{to_errno}
use ftn_tananfs.Outcome.{ok, word}
use ftn_tananfs.Outcome.Action.{Action, pure, ◌>>=◌, ◌>>◌}
use ftn_tananfs.Outcome.Keeps.{Keeps, Leads, Leads-bind, Leads-match_result, Keeps-pure}
use ftn_tananfs.Bitmap.{set as set_bit, get as get_bit}
use ftn_tananfs.Bitmap.Bits.{occupied, get_lem, set-written}
use ftn_tananfs.Bitmap.Free.{free_below_less}
use ftn_tananfs.Superblock.Layout.{IsBlockSize, IsDevice}
use ftn_tananfs.Device.{Device}
use ftn_tananfs.Filesystem.{Filesystem, on_inodes, root_inode}
use ftn_tananfs.Filesystem.Using.{with_object, scoped}
use ftn_tananfs.Filesystem.Flushing.{force_flush}
use ftn_tananfs.Filesystem.Mount.{new}
use ftn_tananfs.Filesystem.Invariant.{IsInvariant, Keeps-force_flush}
use ftn_tananfs.Filesystem.Invariant.Shared.{shared_rules}
use ftn_tananfs.Filesystem.Accounts.{IsAccounted}
use ftn_tananfs.Filesystem.Accounts.Counted.{IsCounted-mark}
use ftn_tananfs.Filesystem.Accounts.Fresh.{new-IsAccounted}
use ftn_tananfs.Filesystem.Accounts.Invariant.{IsAccounted-IsInvariant}
use ftn_tananfs.Directory.Access.{drop}
use ftn_tananfs.Directory.Create.{new as new_directory}
use ftn_tananfs.Directory.Invariant.{Keeps-new, Keeps-drop}
use ftn_tananfs.Fuse.{Reply}
use ftn_tananfs.Fuse.Session.{init, create_root, root_name}
use ftn_tananfs.Fuse.Requests.{Reach, Reach-IsAccounted}

ok-injective : {A : Type 0} {a b : A} → ok a ≡ ok b → a ≡ b
ok-injective h = cc

module _ {W : Type 0} where
  -- The inode 0 and the root inode are free, with room for one more in the count.
  pub record IsUnmounted (extra : ℕ) (fs : Filesystem W) : Type 0 where
    pub accounted : IsAccounted extra fs
    pub two : 1 < fs.superblock.inode_count
    pub room : suc extra + fs.superblock.inode_count < word
    pub first_free : occupied fs.inodes 0 ≡ false
    pub root_free : occupied fs.inodes root_inode ≡ false

  mark-IsAccounted :
      (extra : ℕ) → Leads (IsUnmounted extra) (IsAccounted (suc extra)) (on_inodes (set_bit 0 true))
  mark-IsAccounted extra = record {
    at = λ fs u.
        let a = u.accounted in
        rw
          (set-written fs.inodes 0 true a.of_inodes.valid
            (omega (arith, a.of_inodes.covers, u.two)))
          (record {
            of_inodes = IsCounted-mark a.of_inodes 0 (omega (arith, u.two)) u.first_free u.room;
            of_blocks = a.of_blocks;
          });
  }

module _ {W : Type 0} (device : Device W) where
  root_scope : Action (Filesystem W) (Unit {0})
  root_scope = do
    dir ← new_directory device root_inode root_name 488
    with_object dir (scoped (drop device) (pure tt))

  Keeps-root_scope :
      {P : Filesystem W → Type 0} (invariant : IsInvariant device P) → Keeps P root_scope
  unfolding root_scope
  Keeps-root_scope invariant = search (shared_rules, Keeps-new, Keeps-drop) depth 20

  Leads-create_root :
      (extra : ℕ) → Leads (IsUnmounted extra) (IsAccounted (suc extra)) (create_root device)
  unfolding create_root root_scope
  Leads-create_root extra =
      Leads-bind (on_inodes (set_bit 0 true)) (λ u. root_scope) (mark-IsAccounted extra)
        (λ u. Keeps-root_scope (IsAccounted-IsInvariant device (suc extra)))

  -- The first `init` makes the root directory and leaves the inode count one too high, since it marks
  -- inode 0 without counting it: with any device, and however it ends.
  pub init-IsAccounted :
      (extra : ℕ) (fs : Filesystem W)
      → IsUnmounted extra fs
      → IsAccounted (suc extra) (init device fs).1
  unfolding init
  init-IsAccounted extra fs u =
      let invariant = IsAccounted-IsInvariant device (suc extra) in
      let unused : get_bit fs.inodes root_inode ≡ ok false =
        get_lem fs.inodes root_inode u.accounted.of_inodes.valid
          (omega (arith, u.accounted.of_inodes.covers, u.two))
        ∙ rw u.root_free refl in
      rw unused (
        (Leads-match_result (create_root device >> force_flush device) (λ u. pure Reply.done)
            (λ e. pure (Reply.error (to_errno e)))
            (Leads-bind (create_root device) (λ u. force_flush device) (Leads-create_root extra)
              (λ u. Keeps-force_flush invariant))
            (λ u. Keeps-pure Reply.done) (λ e. Keeps-pure (Reply.error (to_errno e)))).at
          fs u)

  free_all :
      (fs : Filesystem W) (i : ℕ)
      → IsAccounted 0 fs
      → fs.superblock.inodes_free ≡ fs.superblock.inode_count
      → i < fs.superblock.inode_count
      → occupied fs.inodes i ≡ false
  free_all fs i a all below = elim (Bool-cases (occupied fs.inodes i)) [
    | inl used ↦ ground (
      arith,
      a.of_inodes.counts,
      all,
      free_below_less fs.superblock.inode_count fs.inodes i below used,
    )
    | inr clear ↦ clear
  ]

  unmounted :
      (fs : Filesystem W)
      → IsAccounted 0 fs
      → fs.superblock.inodes_free ≡ fs.superblock.inode_count
      → 1 < fs.superblock.inode_count
      → fs.superblock.inode_count ≤ 2 ^ 50
      → IsUnmounted 0 fs
  unmounted fs a all two few = record {
    accounted = a;
    two = two;
    room = omega (arith, few);
    first_free = free_all fs 0 a all (omega (arith, two));
    root_free = free_all fs root_inode a all two;
  }

  -- A filesystem that is made on a device of 64 KiB to 2 ^ 62 bytes, with at least two inodes, mounted,
  -- and then serves any requests: its bitmaps are valid, its free block count is right, and its free
  -- inode count is one too high, whatever the device answers and however the handlers end.
  pub new-init-Reach :
      (w : W) (capacity b : ℕ) (fs fs' : Filesystem W)
      → IsDevice capacity b
      → IsBlockSize b
      → new capacity b w ≡ ok fs
      → 1 < fs.superblock.inode_count
      → Reach device (init device fs).1 fs'
      → IsAccounted 1 fs'
  new-init-Reach w capacity b fs fs' usable size made two reach =
      let (fs0, e, a, blocks, inodes, store, modest) = new-IsAccounted w capacity b usable size in
      let same : fs0 ≡ fs = ok-injective (sym e ∙ made) in
      let u : IsUnmounted 0 fs =
        unmounted fs (rw (sym same) a) (rw (sym same) inodes) two (rw (sym same) modest.inodes) in
      Reach-IsAccounted device 1 (init device fs).1 fs' reach (init-IsAccounted 0 fs u)
