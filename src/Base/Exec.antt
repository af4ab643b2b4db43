-- ===== src/Base/Exec.antt =====
-- What running a piece of unsafe Rust comes to: a value, a panic, or undefined behaviour.
use Prim.Native.Nat.{ℕ, ◌+◌, ◌-◌, ◌^◌}
use mathlib.Core.Bool.{Bool, true, false}
use mathlib.Core.Path.{◌≡◌, refl}
use mathlib.Core.Option.{none, some}
use mathlib.Core.List.{List}
use zpr_utils.Base.Tests.{ltb, if◌then◌else◌}
use zpr_utils.Base.Lists.{get_elem?}

pub data Exec {ℓ} (A : Type ℓ) : Type ℓ where
  value : A → Exec A
  panic : Exec A
  undefined : Exec A

infixl 5 ◌>>=◌ ◌>>◌
abbrev pub ◌>>=◌ {ℓ κ} : {A : Type ℓ} {B : Type κ} → Exec A → (A → Exec B) → Exec B
value a >>= f = f a
panic >>= f = panic
undefined >>= f = undefined

abbrev pub ◌>>◌ {κ} : {B : Type κ} → Exec (Unit {0}) → Exec B → Exec B
m >> k = m >>= λ _. k

-- `assert!`, and `debug_assert!` in a debug build.
abbrev pub assert : Bool → Exec (Unit {0})
assert true = value tt
assert false = panic

-- `xs[i]` with its bounds check.
abbrev pub index {ℓ} : {A : Type ℓ} → List A → ℕ → Exec A
index xs i = elim (get_elem? xs i) [ none ↦ panic | some a ↦ value a ]

pub index-at {ℓ} :
    {A : Type ℓ} (xs : List A) (i : ℕ) {a : A} → get_elem? xs i ≡ some a → index xs i ≡ value a
index-at xs i e = rw (index, e) refl

-- `+` and `-` on usize, which panic on overflow in a debug build.
abbrev pub add_usize : ℕ → ℕ → Exec ℕ
add_usize m n = if ltb (m + n) (2 ^ 64) then value (m + n) else panic

abbrev pub sub_usize : ℕ → ℕ → Exec ℕ
sub_usize m n = if ltb m n then panic else value (m - n)
