-- ===== src/Tests/Disk.antt =====
-- A device that keeps its bytes in memory, and a small filesystem on it.
use ftn_tananfs.Base.{ℕ, ◌+◌, refl, leb, if◌then◌else◌, List, length, take, drop, le→leb}
use ftn_tananfs.Error.{Error}
use ftn_tananfs.Outcome.{ok, err}
use ftn_tananfs.Block.{overwrite}
use ftn_tananfs.Device.{Device}
use ftn_tananfs.Device.Memory.{IsMemory}

pub record Disk : Type 0 where
  pub content : List ℕ
  pub place : ℕ

abbrev pub disk : Device Disk
disk = record {
  seek = λ p w. (ok tt, record w { place = p });
  read_exact = λ n w.
      if leb (w.place + n) (length w.content)
      then (ok (take n (drop w.place w.content)), record w { place = w.place + n })
      else (err Error.io, w);
  write_all = λ bs w.
      if leb (w.place + length bs) (length w.content)
      then (ok tt, record { content = overwrite w.place bs w.content; place = w.place + length bs })
      else (err Error.io, w);
  now = λ w. (0, w);
  unix_time = λ w. (0, w);
  into_sorted_vec = λ lines. lines;
  regular_file = 4;
  directory = 3;
}

abbrev pub disk-IsMemory : IsMemory disk
disk-IsMemory = record {
  content = λ w. w.content;
  place = λ w. w.place;
  seeks = λ p w. (record w { place = p }, refl, refl, refl);
  reads = λ n w h. (record w { place = w.place + n }, rw (le→leb _ _ h) refl, refl);
  writes = λ bs w h. (
    record { content = overwrite w.place bs w.content; place = w.place + length bs },
    rw (le→leb _ _ h) refl,
    refl,
  );
  ticks = λ w. refl;
}
