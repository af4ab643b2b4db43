-- ===== src/RcuBox.antt =====
-- rcu/src/rcu.rs: `RcuBox`, of which five features choose the implementation. This module has the
-- interface that they share, and the methods that are written against it.
pub mod Rwlock
pub mod MutexArc
pub mod ArcSwap
pub mod Aarc
pub mod Crossbeam
pub mod Updates
pub mod Writers
pub mod Serial
pub mod Alone
pub mod Guards
pub mod Pins
mod Examples
use zpr_utils.Base.{ℕ, ◌≡◌, Bool, true, false, Option, none, some, Result, ok, err}

-- What a call comes to: a result, waiting for a lock that a guard holds, a panic, or undefined
-- behaviour.
pub data Run {ℓ} (A : Type ℓ) : Type ℓ where
  done : A → Run A
  blocked : Run A
  panic : Run A
  undefined : Run A

infixl 5 ◌>>=◌
abbrev pub ◌>>=◌ {ℓ κ} : {A : Type ℓ} {B : Type κ} → Run A → (A → Run B) → Run B
done a >>= f = f a
blocked >>= f = blocked
panic >>= f = panic
undefined >>= f = undefined

-- `unwrap_unchecked`, and the reading of a pointer that may be null.
abbrev pub unwrap_unchecked {ℓ} : {A : Type ℓ} → Option A → Run A
unwrap_unchecked none = undefined
unwrap_unchecked (some a) = done a

abbrev pub Outcome : Type 0
Outcome = Result (Unit {0}) (Unit {0})

-- The operations of an implementation, on the state of one box. A call of one is atomic: it does
-- not overlap another.
pub record RcuOps (T : Type 0) : Type 1 where
  pub Box : Type 0
  pub Guard : Type 0
  pub new : T → Box
  pub inspect : {U : Type 0} → (T → U) → Box → Run U
  pub get : Box → Run (Box × Guard)
  pub deref : Box → Guard → Run T
  pub write : T → Box → Run Box
  pub update : (T → Option T) → Box → Run (Box × Outcome)

-- What the documentation promises. `Holds b v`: the latest value in `b` is `v`. `Free b`: no guard
-- keeps writers waiting. `Held b g`: `g` is a guard of `b` that is not dropped.
pub record IsRcuBox {T : Type 0} (ops : RcuOps T) : Type 1 where
  pub Holds : ops.Box → T → Type 0
  pub Free : ops.Box → Type 0
  pub Held : ops.Box → ops.Guard → Type 0
  pub new-Holds : (v : T) → Holds (ops.new v) v × Free (ops.new v)
  pub inspect-Holds :
      {U : Type 0} (f : T → U) (b : ops.Box) (v : T) → Holds b v → ops.inspect f b ≡ done (f v)
  pub get-Holds :
      (b : ops.Box) (v : T)
      → Holds b v
      → (b' : ops.Box) × (g : ops.Guard) × (ops.get b ≡ done (b', g))
        × Holds b' v
        × Held b' g
        × (ops.deref b' g ≡ done v)
  pub write-Holds :
      (b : ops.Box) (v w : T)
      → Holds b v
      → Free b
      → (b' : ops.Box) × (ops.write w b ≡ done b') × Holds b' w × Free b'
  pub update-Holds :
      (f : T → Option T) (b : ops.Box) (v w : T)
      → Holds b v
      → Free b
      → f v ≡ some w
      → (b' : ops.Box) × (ops.update f b ≡ done (b', ok tt)) × Holds b' w × Free b'
  pub update-refused :
      (f : T → Option T) (b : ops.Box) (v : T)
      → Holds b v
      → Free b
      → f v ≡ none
      → (b' : ops.Box) × (ops.update f b ≡ done (b', err tt)) × Holds b' v × Free b'
  pub write-pinned :
      (b b' : ops.Box) (w v : T) (g : ops.Guard)
      → Held b g
      → ops.deref b g ≡ done v
      → ops.write w b ≡ done b'
      → Held b' g × (ops.deref b' g ≡ done v)
  pub update-pinned :
      (f : T → Option T) (b b' : ops.Box) (r : Outcome) (v : T) (g : ops.Guard)
      → Held b g
      → ops.deref b g ≡ done v
      → ops.update f b ≡ done (b', r)
      → Held b' g × (ops.deref b' g ≡ done v)
