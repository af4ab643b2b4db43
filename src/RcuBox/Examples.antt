-- ===== src/RcuBox/Examples.antt =====
-- Boxes over concrete cells, and instances of the theorems on them.
use zpr_utils.Base.{ℕ, ◌+◌, ◌≡◌, refl, ◌⊎◌, Option, none, some, [], ◌∷◌, Bool, true, false, ok, err}
use zpr_utils.Base.Exec.{value}
use zpr_utils.Cslab.Reader
use zpr_utils.Cslab.Storage.{contains_key_impl}
use zpr_utils.Cslab.Rcu.{RcuCslabReader}
use zpr_utils.Cslab.Rcu.Steps.{reader_of}
use zpr_utils.Cslab.Rcu.Entries.{reader_get, reader_contains_key}
use zpr_utils.Cslab.Rcu.Examples.{
  fits, fits-bounded, created_slab, creates, world2, world4, reach2, holding4,
}
use zpr_utils.RcuBox.{done, RcuOps, IsRcuBox}
use zpr_utils.RcuBox.Rwlock.{rwlock_box, rwlock_box-IsRcuBox}
use zpr_utils.RcuBox.MutexArc
use zpr_utils.RcuBox.MutexArc.{mutex_arc_box, mutex_arc_box-IsRcuBox}
use zpr_utils.RcuBox.ArcSwap
use zpr_utils.RcuBox.ArcSwap.{Swaps, arc_swap_locked, arc_swap-apply_all}
use zpr_utils.RcuBox.Writers.{
  LockedOps, inside, computed, leaving, outside, moved, Writers, Step, enters, computes, replaces,
  stores, leaves, Reach, start, later, unused,
}
use zpr_utils.RcuBox.Aarc.{Atomics, aarc_box, aarc_box-IsRcuBox}
use zpr_utils.RcuBox.Updates.{writes, updates, apply_all, run_calls}
use zpr_utils.RcuBox.Guards.{
  RcuOptionGuard, option_from, option_try_from, option_deref, RcuCslabEntryGuard, get_guarded,
  entry_guard_deref,
}
use zpr_utils.RcuBox.Pins.{option_from-pinned, get_guarded-pinned}

-- A value in memory, for the crates of the two boxes with a mutex.
abbrev atomic_cells : (T : Type 0) → Atomics T
atomic_cells T = record {
  Cell = Option T;
  create = λ o. o;
  load = λ cell. cell;
  store = λ o cell. o;
}

abbrev swap_cells : Swaps ℕ
swap_cells = record { Cell = ℕ; create = λ v. v; load = λ cell. cell; store = λ v cell. v }

rwlock_box-IsRcuBox_example : IsRcuBox (rwlock_box ℕ)
rwlock_box-IsRcuBox_example = rwlock_box-IsRcuBox ℕ

aarc_cells-IsRcuBox : IsRcuBox (aarc_box (atomic_cells ℕ))
aarc_cells-IsRcuBox =
    aarc_box-IsRcuBox (atomic_cells ℕ)
      (record { load-create = λ o. refl; load-store = λ o cell. refl })

-- Two threads: one increments, and releases the mutex; then the other writes.
abbrev ops : LockedOps ℕ
ops = arc_swap_locked swap_cells

abbrev increment : ℕ → Option ℕ
increment n = some (n + 1)

abbrev box_of : ℕ → Bool → ops.Box
box_of n held = record { cell = n; locked = held }

abbrev writers0 : Writers ops
writers0 = unused ops (box_of 5 false)

abbrev writers1 : Writers ops
writers1 = record {
  box = box_of 5 true;
  pc = moved writers0.pc 0 (inside (updates increment));
  log = [];
}

abbrev writers2 : Writers ops
writers2 = record {
  box = box_of 5 true;
  pc = moved writers1.pc 0 (computed increment (some 6));
  log = [];
}

abbrev writers3 : Writers ops
writers3 = record {
  box = box_of 6 true;
  pc = moved writers2.pc 0 leaving;
  log = updates increment ∷ [];
}

abbrev writers4 : Writers ops
writers4 = record {
  box = box_of 6 false;
  pc = moved writers3.pc 0 outside;
  log = updates increment ∷ [];
}

abbrev writers5 : Writers ops
writers5 = record {
  box = box_of 6 true;
  pc = moved writers4.pc 1 (inside (writes 9));
  log = updates increment ∷ [];
}

abbrev writers6 : Writers ops
writers6 = record {
  box = box_of 9 true;
  pc = moved writers5.pc 1 leaving;
  log = updates increment ∷ writes 9 ∷ [];
}

step1 : Step ops writers0 writers1
unfolding ArcSwap.lock
step1 = enters 0 (updates increment) (box_of 5 true) refl refl

step2 : Step ops writers1 writers2
unfolding ArcSwap.inspect
step2 = computes 0 increment (some 6) refl refl

step3 : Step ops writers2 writers3
unfolding ArcSwap.write_nonlocked
step3 = replaces 0 increment 6 refl

step4 : Step ops writers3 writers4
unfolding ArcSwap.unlock
step4 = leaves 0 refl

step5 : Step ops writers4 writers5
unfolding ArcSwap.lock
step5 = enters 1 (writes 9) (box_of 6 true) refl refl

step6 : Step ops writers5 writers6
unfolding ArcSwap.write_nonlocked
step6 = stores 1 9 refl

run6 : Reach ops (unused ops (ArcSwap.new swap_cells 5)) writers6
unfolding ArcSwap.new
run6 = later (later (later (later (later (later start step1) step2) step3) step4) step5) step6

arc_swap-apply_all_example :
    ArcSwap.inspect swap_cells (λ x. x) (box_of 9 true)
    ≡ done (apply_all (updates increment ∷ writes 9 ∷ []) 5)
arc_swap-apply_all_example =
    arc_swap-apply_all swap_cells (record { load-create = λ v. refl; load-store = λ v cell. refl })
      5 writers6 run6

abbrev optional : RcuOps (Option ℕ)
optional = mutex_arc_box (Option ℕ)

abbrev three : optional.Guard
three = record { arc = some 3 }

abbrev three_box : optional.Box
three_box = MutexArc.new (some 3)

abbrev nothing_box : optional.Box
nothing_box = MutexArc.new none

three-got : optional.get three_box ≡ done (three_box, three)
unfolding MutexArc.get MutexArc.new
three-got = refl

three-gone : run_calls optional (writes none ∷ []) three_box ≡ done nothing_box
unfolding run_calls MutexArc.write MutexArc.new
three-gone = refl

-- The guard still gives its value after the box was emptied.
option_from-pinned_example :
    ((◌≡◌ {A = Option ℕ} (some 3) none)
      × (option_from optional three_box three ≡ done none)
      × (option_try_from optional three_box three ≡ done (err tt)))
    ⊎ ((v : ℕ) × (og : RcuOptionGuard optional) × (◌≡◌ {A = Option ℕ} (some 3) (some v))
        × (option_from optional three_box three ≡ done (some og))
        × (option_try_from optional three_box three ≡ done (ok og))
        × (option_deref optional nothing_box og ≡ done v))
option_from-pinned_example =
    option_from-pinned optional (mutex_arc_box-IsRcuBox (Option ℕ)) three_box three_box nothing_box
      three (some 3) (writes none ∷ []) ((mutex_arc_box-IsRcuBox (Option ℕ)).new-Holds (some 3)).0
      three-got three-gone

abbrev shared : RcuOps RcuCslabReader
shared = mutex_arc_box RcuCslabReader

abbrev old_box : shared.Box
old_box = MutexArc.new (reader_of 0)

abbrev new_box : shared.Box
new_box = MutexArc.new (reader_of 1)

abbrev entry : RcuCslabEntryGuard shared
entry = record { guard = record { arc = reader_of 0 }; key = 0 }

entry-got : get_guarded shared world2.slab 0 old_box ≡ done (old_box, some entry)
unfolding get_guarded MutexArc.get MutexArc.deref MutexArc.new reader_contains_key
    Reader.contains_key contains_key_impl
entry-got = refl

reader-replaced : run_calls shared (writes (reader_of 1) ∷ []) old_box ≡ done new_box
unfolding run_calls MutexArc.write MutexArc.new
reader-replaced = refl

-- The item is removed, and the box has the new reader.
get_guarded-pinned_example :
    (v : ℕ) × (reader_get (reader_of 0) world2.slab 0 ≡ value (some v))
    × (entry_guard_deref shared world4.slab new_box entry ≡ done v)
get_guarded-pinned_example =
    get_guarded-pinned fits fits-bounded 2 created_slab creates shared
      (mutex_arc_box-IsRcuBox RcuCslabReader) world2 world4 old_box old_box new_box (reader_of 0) 0
      entry (writes (reader_of 1) ∷ []) reach2
      ((mutex_arc_box-IsRcuBox RcuCslabReader).new-Holds (reader_of 0)).0 entry-got holding4
      reader-replaced
