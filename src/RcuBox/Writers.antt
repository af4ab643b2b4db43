-- ===== src/RcuBox/Writers.antt =====
-- rcu/src/rcu.rs: writers of one box at the same time, for the implementations that have a mutex
-- for them beside the pointer: `write` and `update` of rcu-aarc and rcu-arc-swap, step by step.
use zpr_utils.Base.{
  ℕ, ◌==◌, if◌then◌else◌, ◌≡◌, Bool, true, false, Option, none, some, List, [], ◌∷◌, ◌++◌,
}
use zpr_utils.RcuBox.{Run, done}
use zpr_utils.RcuBox.Updates.{Call, writes, updates}

-- What `write` and `update` are made of.
pub record LockedOps (T : Type 0) : Type 1 where
  pub Box : Type 0
  pub lock : Box → Run Box
  pub unlock : Box → Box
  pub inspect : {U : Type 0} → (T → U) → Box → Run U
  pub write_nonlocked : T → Box → Box

-- `Holds b v`: the latest value in `b` is `v`. `is_locked b`: a writer has the mutex.
pub record IsLockedBox {T : Type 0} (ops : LockedOps T) : Type 1 where
  pub Holds : ops.Box → T → Type 0
  pub is_locked : ops.Box → Bool
  pub lock-Holds :
      (b b' : ops.Box) (v : T)
      → ops.lock b ≡ done b'
      → Holds b v
      → (is_locked b ≡ false) × (is_locked b' ≡ true) × Holds b' v
  pub unlock-Holds :
      (b : ops.Box) (v : T)
      → Holds b v
      → (is_locked (ops.unlock b) ≡ false) × Holds (ops.unlock b) v
  pub inspect-Holds :
      {U : Type 0} (f : T → U) (b : ops.Box) (v : T) → Holds b v → ops.inspect f b ≡ done (f v)
  pub write_nonlocked-Holds :
      (b : ops.Box) (v : T)
      → (is_locked (ops.write_nonlocked v b) ≡ is_locked b) × Holds (ops.write_nonlocked v b) v

-- Where a thread is: outside of any call, in a call with the mutex, in an `update` whose function
-- has returned, or about to release the mutex.
pub data Pc (T : Type 0) : Type 0 where
  outside : Pc T
  inside : Call T → Pc T
  computed : (T → Option T) → Option T → Pc T
  leaving : Pc T

abbrev pub moved : {T : Type 0} → (ℕ → Pc T) → ℕ → Pc T → ℕ → Pc T
moved pc i p j = if j == i then p else pc j

-- The box, its threads, and the calls that have taken effect.
pub record Writers {T : Type 0} (ops : LockedOps T) : Type 0 where
  pub box : ops.Box
  pub pc : ℕ → Pc T
  pub log : List (Call T)

module _ {T : Type 0} (ops : LockedOps T) where
  -- A step of thread `i`. A thread with a call to make waits until it has the mutex.
  pub data Step (w : Writers ops) : Writers ops → Type 0 where
    enters :
        (i : ℕ) (call : Call T) (b : ops.Box)
        → w.pc i ≡ outside
        → ops.lock w.box ≡ done b
        → Step w (record { box = b; pc = moved w.pc i (inside call); log = w.log })
    computes :
        (i : ℕ) (f : T → Option T) (o : Option T)
        → w.pc i ≡ inside (updates f)
        → ops.inspect f w.box ≡ done o
        → Step w (record { box = w.box; pc = moved w.pc i (computed f o); log = w.log })
    refuses :
        (i : ℕ) (f : T → Option T)
        → w.pc i ≡ computed f none
        → Step w
            (record { box = w.box; pc = moved w.pc i leaving; log = w.log ++ (updates f ∷ []) })
    replaces :
        (i : ℕ) (f : T → Option T) (v : T)
        → w.pc i ≡ computed f (some v)
        → Step w (record {
          box = ops.write_nonlocked v w.box;
          pc = moved w.pc i leaving;
          log = w.log ++ (updates f ∷ []);
        })
    stores :
        (i : ℕ) (v : T)
        → w.pc i ≡ inside (writes v)
        → Step w (record {
          box = ops.write_nonlocked v w.box;
          pc = moved w.pc i leaving;
          log = w.log ++ (writes v ∷ []);
        })
    leaves :
        (i : ℕ)
        → w.pc i ≡ leaving
        → Step w (record { box = ops.unlock w.box; pc = moved w.pc i outside; log = w.log })

  pub data Reach (s : Writers ops) : Writers ops → Type 0 where
    start : Reach s s
    later : {w w' : Writers ops} → Reach s w → Step w w' → Reach s w'

  -- All threads are outside, and nothing was called.
  abbrev pub unused : ops.Box → Writers ops
  unused b = record { box = b; pc = λ i. outside; log = [] }
