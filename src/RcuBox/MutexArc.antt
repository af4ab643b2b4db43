-- ===== src/RcuBox/MutexArc.antt =====
-- rcu/src/rcu.rs, feature rcu-mutex-arc: the box is an `Arc` behind a mutex, which no guard holds.
-- What an `Arc` refers to does not change, so an `Arc` is modelled by it.
use zpr_utils.Base.{◌≡◌, refl, Option, none, some, ok, err}
use zpr_utils.RcuBox.{Run, done, RcuOps, IsRcuBox, Outcome}

pub record RcuBox (T : Type 0) : Type 0 where
  pub arc : T

pub record RcuGuard (T : Type 0) : Type 0 where
  pub arc : T

module _ {T : Type 0} where
  unfoldable pub new : T → RcuBox T
  new v = record { arc = v }

  unfoldable pub inspect : {U : Type 0} → (T → U) → RcuBox T → Run U
  inspect f b = done (f b.arc)

  unfoldable pub get : RcuBox T → Run (RcuBox T × RcuGuard T)
  get b = done (b, record { arc = b.arc })

  unfoldable pub deref : RcuBox T → RcuGuard T → Run T
  deref b g = done g.arc

  unfoldable pub write : T → RcuBox T → Run (RcuBox T)
  write v b = done (record { arc = v })

  -- The end of `update`, by what its function returned.
  abbrev replaced : RcuBox T → Option T → RcuBox T × Outcome
  replaced b none = (b, err tt)
  replaced b (some v) = (record { arc = v }, ok tt)

  unfoldable pub update : (T → Option T) → RcuBox T → Run (RcuBox T × Outcome)
  update f b = done (replaced b (f b.arc))

abbrev pub mutex_arc_box : (T : Type 0) → RcuOps T
mutex_arc_box T = record {
  Box = RcuBox T;
  Guard = RcuGuard T;
  new = new;
  inspect = inspect;
  get = get;
  deref = deref;
  write = write;
  update = update;
}

-- The mutex with an `Arc` implements the box.
pub mutex_arc_box-IsRcuBox : (T : Type 0) → IsRcuBox (mutex_arc_box T)
unfolding new inspect get deref write update
mutex_arc_box-IsRcuBox T = record {
  Holds = λ b v. b.arc ≡ v;
  Free = λ b. Unit;
  Held = λ b g. Unit;
  new-Holds = λ v. (refl, tt);
  inspect-Holds = λ f b v e. rw e refl;
  get-Holds = λ b v e. (b, record { arc = b.arc }, refl, e, tt, rw e refl);
  write-Holds = λ b v w e free. (record { arc = w }, refl, refl, tt);
  update-Holds = λ f b v w e free found. (record { arc = w }, rw (e, found) refl, refl, tt);
  update-refused = λ f b v e free found. (b, rw (e, found) refl, e, tt);
  write-pinned = λ b b' w v g held item run. (tt, item);
  update-pinned = λ f b b' r v g held item run. (tt, item);
}
