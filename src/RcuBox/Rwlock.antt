-- ===== src/RcuBox/Rwlock.antt =====
-- rcu/src/rcu.rs, feature rcu-rwlock: the box is an `RwLock`. A guard is a read lock, so a writer
-- waits for the guards to go.
use zpr_utils.Base.{ℕ, ◌+◌, ◌≤◌, ◌≡◌, refl, true, false, Option, none, some, ◌==◌, ok, err, arith}
use zpr_utils.RcuBox.{Run, done, blocked, ◌>>=◌, RcuOps, IsRcuBox, Outcome}

-- `RwLock`: its item, and how many read locks are held.
pub record RcuBox (T : Type 0) : Type 0 where
  pub item : T
  pub readers : ℕ

-- A read lock, which says no more than that it is held.
pub data RcuGuard : Type 0 where
  read_lock : RcuGuard

module _ {T : Type 0} where
  abbrev lock : RcuBox T → Run (RcuBox T)
  lock b = elim (b.readers == 0) [ true ↦ done b | false ↦ blocked ]

  unfoldable pub new : T → RcuBox T
  new v = record { item = v; readers = 0 }

  unfoldable pub inspect : {U : Type 0} → (T → U) → RcuBox T → Run U
  inspect f b = done (f b.item)

  unfoldable pub get : RcuBox T → Run (RcuBox T × RcuGuard)
  get b = done (record { item = b.item; readers = b.readers + 1 }, read_lock)

  unfoldable pub deref : RcuBox T → RcuGuard → Run T
  deref b g = done b.item

  unfoldable pub write : T → RcuBox T → Run (RcuBox T)
  write v b = do locked ← lock b; done (record { item = v; readers = locked.readers })

  -- The end of `update`, by what its function returned.
  abbrev replaced : RcuBox T → Option T → RcuBox T × Outcome
  replaced b none = (b, err tt)
  replaced b (some v) = (record { item = v; readers = b.readers }, ok tt)

  unfoldable pub update : (T → Option T) → RcuBox T → Run (RcuBox T × Outcome)
  update f b = do locked ← lock b; done (replaced locked (f locked.item))

  lock-free : (b : RcuBox T) → b.readers ≡ 0 → lock b ≡ done b
  lock-free b e = let unlocked : (b.readers == 0) ≡ true = ground arith in rw (lock, unlocked) refl

abbrev pub rwlock_box : (T : Type 0) → RcuOps T
rwlock_box T = record {
  Box = RcuBox T;
  Guard = RcuGuard;
  new = new;
  inspect = inspect;
  get = get;
  deref = deref;
  write = write;
  update = update;
}

-- The box of a read-write lock implements the interface, where writers wait only while guards
-- exist: reading gives the latest value; a write, or an update with a result, replaces it, and an
-- update without one keeps it and is an error; and a guard keeps the value that it was made with
-- through every write and update that comes to an end.
pub rwlock_box-IsRcuBox : (T : Type 0) → IsRcuBox (rwlock_box T)
unfolding new inspect get deref write update
rwlock_box-IsRcuBox T = record {
  Holds = λ b v. b.item ≡ v;
  Free = λ b. b.readers ≡ 0;
  Held = λ b g. 1 ≤ b.readers;
  new-Holds = λ v. (refl, refl);
  inspect-Holds = λ f b v e. rw e refl;
  get-Holds = λ b v e. (
    record { item = b.item; readers = b.readers + 1 },
    read_lock,
    refl,
    e,
    omega arith,
    rw e refl,
  );
  write-Holds = λ b v w e free.
      (record { item = w; readers = b.readers }, rw (lock-free b free) refl, refl, free);
  update-Holds = λ f b v w e free found.
      (record { item = w; readers = b.readers }, rw (lock-free b free, e, found) refl, refl, free);
  update-refused = λ f b v e free found. (b, rw (lock-free b free, e, found) refl, e, free);
  write-pinned = λ b b' w v g held item run. absurd (ground (arith, held, run));
  update-pinned = λ f b b' r v g held item run. absurd (ground (arith, held, run));
}
