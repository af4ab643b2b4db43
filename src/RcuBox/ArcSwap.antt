-- ===== src/RcuBox/ArcSwap.antt =====
-- rcu/src/rcu.rs, feature rcu-arc-swap: the box is an `arc_swap::ArcSwap` and a mutex for writers.
-- The crate's type is a parameter. Its guard keeps the `Arc` that it was loaded from.
use zpr_utils.Base.{
  ◌≡◌, refl, sym, ap, ◌∙◌, inl, inr, Bool-cases, Option-cases, subst, Option, none, some, Bool,
  true, false, if◌then◌else◌, ok, err,
}
use zpr_utils.RcuBox.{Run, done, blocked, ◌>>=◌, RcuOps, IsRcuBox, Outcome}
use zpr_utils.RcuBox.Updates.{writes, updates, apply_all}
use zpr_utils.RcuBox.Writers.{LockedOps, IsLockedBox, Writers, Reach, unused}
use zpr_utils.RcuBox.Alone
use zpr_utils.RcuBox.Alone.{Leaves, update-Leaves-none, update-Leaves-some}
use zpr_utils.RcuBox.Serial.{reach-Holds}

-- What the code calls of `arc_swap`.
pub record Swaps (T : Type 0) : Type 1 where
  pub Cell : Type 0
  pub create : T → Cell
  pub load : Cell → T
  pub store : T → Cell → Cell

-- Its documented behaviour: a load gives what was last stored.
pub record IsSwaps {T : Type 0} (swaps : Swaps T) : Type 0 where
  pub load-create : (v : T) → swaps.load (swaps.create v) ≡ v
  pub load-store : (v : T) (cell : swaps.Cell) → swaps.load (swaps.store v cell) ≡ v

module _ {T : Type 0} (swaps : Swaps T) where
  pub record RcuBox : Type 0 where
    pub cell : swaps.Cell
    pub locked : Bool

  pub record RcuGuard : Type 0 where
    pub guard : T

  unfoldable pub new : T → RcuBox
  new v = record { cell = swaps.create v; locked = false }

  unfoldable pub inspect : {U : Type 0} → (T → U) → RcuBox → Run U
  inspect f b = done (f (swaps.load b.cell))

  unfoldable pub get : RcuBox → Run (RcuBox × RcuGuard)
  get b = done (b, record { guard = swaps.load b.cell })

  unfoldable pub deref : RcuBox → RcuGuard → Run T
  deref b g = done g.guard

  unfoldable pub write_nonlocked : T → RcuBox → RcuBox
  write_nonlocked v b = record b { cell = swaps.store v b.cell }

  -- `self.1.lock()`, which waits while another writer has the mutex, and the drop of its guard.
  unfoldable pub lock : RcuBox → Run RcuBox
  lock b = if b.locked then blocked else done (record b { locked = true })

  unfoldable pub unlock : RcuBox → RcuBox
  unlock b = record b { locked = false }

  unfoldable pub write : T → RcuBox → Run RcuBox
  unfolding lock unlock write_nonlocked
  write v b = do l ← lock b; done (unlock (write_nonlocked v l))

  -- The end of `update`, by what its function returned.
  abbrev replaced : RcuBox → Option T → RcuBox × Outcome
  replaced l none = (unlock l, err tt)
  replaced l (some v) = (unlock (write_nonlocked v l), ok tt)

  unfoldable pub update : (T → Option T) → RcuBox → Run (RcuBox × Outcome)
  unfolding lock unlock inspect write_nonlocked
  update f b = do l ← lock b; r ← inspect f l; done (replaced l r)

  abbrev pub arc_swap_box : RcuOps T
  arc_swap_box = record {
    Box = RcuBox;
    Guard = RcuGuard;
    new = new;
    inspect = inspect;
    get = get;
    deref = deref;
    write = write;
    update = update;
  }

  -- A swapped `Arc` that loads what was stored implements the box.
  pub arc_swap_box-IsRcuBox : IsSwaps swaps → IsRcuBox arc_swap_box
  unfolding new inspect get deref lock unlock write update write_nonlocked
  arc_swap_box-IsRcuBox laws = record {
    Holds = λ b v. swaps.load b.cell ≡ v;
    Free = λ b. b.locked ≡ false;
    Held = λ b g. Unit;
    new-Holds = λ v. (laws.load-create v, refl);
    inspect-Holds = λ f b v e. rw e refl;
    get-Holds = λ b v e. (b, record { guard = swaps.load b.cell }, refl, e, tt, rw e refl);
    write-Holds = λ b v w e free. (
      record { cell = swaps.store w b.cell; locked = false },
      rw free refl,
      laws.load-store w b.cell,
      refl,
    );
    update-Holds = λ f b v w e free found. (
      record { cell = swaps.store w b.cell; locked = false },
      rw (free, e, found) refl,
      laws.load-store w b.cell,
      refl,
    );
    update-refused = λ f b v e free found.
        (record { cell = b.cell; locked = false }, rw (free, e, found) refl, e, refl);
    write-pinned = λ b b' w v g held item run. (tt, item);
    update-pinned = λ f b b' r v g held item run. (tt, item);
  }

  abbrev pub arc_swap_locked : LockedOps T
  arc_swap_locked = record {
    Box = RcuBox;
    lock = lock;
    unlock = unlock;
    inspect = inspect;
    write_nonlocked = write_nonlocked;
  }

  lock-taken :
      (b b' : RcuBox)
      → lock b ≡ done b'
      → (b.locked ≡ false) × (◌≡◌ {A = RcuBox} (record b { locked = true }) b')
  unfolding lock
  lock-taken b b' locks = elim (Bool-cases b.locked) [
    | inl held ↦ let out = rw held at locks in cc
    | inr free ↦ let out = rw free at locks in (free, cc)
  ]

  arc_swap_locked-IsLockedBox : IsSwaps swaps → IsLockedBox arc_swap_locked
  unfolding inspect lock unlock write_nonlocked
  arc_swap_locked-IsLockedBox laws = record {
    Holds = λ b v. swaps.load b.cell ≡ v;
    is_locked = λ b. b.locked;
    lock-Holds = λ b b' v locks e.
        let (free, taken) = lock-taken b b' locks in
        (
          free,
          sym (ap (λ (t : RcuBox). t.locked) taken),
          sym (ap (λ (t : RcuBox). swaps.load t.cell) taken) ∙ e,
        );
    unlock-Holds = λ b v e. (refl, e);
    inspect-Holds = λ f b v e. rw e refl;
    write_nonlocked-Holds = λ b v. (refl, laws.load-store v b.cell);
  }

  pub update-Leaves :
      (f : T → Option T) (b b' : RcuBox) (r : Outcome)
      → update f b ≡ done (b', r)
      → Leaves arc_swap_locked b (updates f) b'
  unfolding lock unlock inspect write_nonlocked update
  update-Leaves f b b' r run = elim (Bool-cases b.locked) [
    | inl held ↦ let out = rw held at run in cc
    | inr free ↦
        let l : RcuBox = record b { locked = true } in
        let run1 = rw free at run in
        elim (Option-cases (f (swaps.load b.cell))) [
          | inl nothing ↦
              let out = rw (nothing) at run1 in
              let same : unlock l ≡ b' = cc in
              subst (Leaves arc_swap_locked b (updates f)) same
                (update-Leaves-none arc_swap_locked b l (rw free refl) f (rw (nothing) refl))
          | inr (w, found) ↦
              let out = rw (found) at run1 in
              let same : unlock (write_nonlocked w l) ≡ b' = cc in
              subst (Leaves arc_swap_locked b (updates f)) same
                (update-Leaves-some arc_swap_locked b l (rw free refl) f w (rw (found) refl))
        ]
  ]

  -- The same of `write`.
  pub write-Leaves :
      (v : T) (b b' : RcuBox) → write v b ≡ done b' → Leaves arc_swap_locked b (writes v) b'
  unfolding lock unlock write_nonlocked write
  write-Leaves v b b' run = elim (Bool-cases b.locked) [
    | inl held ↦ let out = rw held at run in cc
    | inr free ↦
        let l : RcuBox = record b { locked = true } in
        let run1 = rw free at run in
        let same : unlock (write_nonlocked v l) ≡ b' = cc in
        subst (Leaves arc_swap_locked b (writes v)) same
          (Alone.write-Leaves arc_swap_locked b l (rw free refl) v)
  ]

  -- Where a load gives what was last stored: however the steps of threads that write and update a
  -- new box interleave, each taking the mutex, reading, storing and releasing it one at a time, the
  -- box gives what the calls that took effect make of its first value, one after the other, so
  -- no update is lost.
  pub arc_swap-apply_all :
      IsSwaps swaps
      → (v : T) (w : Writers arc_swap_locked)
      → Reach arc_swap_locked (unused arc_swap_locked (new v)) w
      → inspect (λ x. x) w.box ≡ done (apply_all w.log v)
  unfolding new inspect arc_swap_locked-IsLockedBox
  arc_swap-apply_all laws v w reach =
      let locked = arc_swap_locked-IsLockedBox laws in
      locked.inspect-Holds (λ x. x) w.box (apply_all w.log v)
        (reach-Holds arc_swap_locked locked v (new v) (laws.load-create v) refl w reach)
