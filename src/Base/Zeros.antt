-- ===== src/Base/Zeros.antt =====
-- `trailing_zeros` and `leading_zeros` of a word, and what they say about its bits.
use Prim.Native.Nat.{ℕ, zero, suc, ◌+◌, ◌/◌, ◌%◌, ◌^◌, ◌≤◌, ◌<◌}
use mathlib.Core.Path.{◌≡◌, refl}
use mathlib.Core.Logic.{◌≢◌, ◌⊎◌, inl, inr}
use mathlib.Core.Bool.{true, false}
use native.Mathlib.Nat.{pow-suc, mul_comm, div-div-eq-div-mul}
use native.Mathlib.Omega.{arith}
use zpr_utils.Base.Tests.{◌==◌, if◌then◌else◌}
use zpr_utils.Base.Bits.{bit, bit-lt}

-- Among the lowest `n` digits; `n` where they are all zero.
unfoldable pub trailing_zeros : ℕ → ℕ → ℕ
trailing_zeros zero x = 0
trailing_zeros (suc n) x = if x % 2 == 1 then 0 else 1 + trailing_zeros n (x / 2)

unfoldable pub leading_zeros : ℕ → ℕ → ℕ
leading_zeros zero x = 0
leading_zeros (suc n) x = if bit n x == 1 then 0 else 1 + leading_zeros n x

pub bit-shr : (k j x : ℕ) → bit j (x / 2 ^ k) ≡ bit (k + j) x
bit-shr zero j x =
    let whole : x / 1 ≡ x = omega arith in
    let index : 0 + j ≡ j = omega arith in rw (whole, index) refl
bit-shr (suc k) j x =
    let index : suc k + j ≡ suc (k + j) = omega arith in
    rw (pow-suc, mul_comm (2 ^ k) 2, ← div-div-eq-div-mul x 2 (2 ^ k), index) (bit-shr k j (x / 2))

dec_odd : (x : ℕ) → ((x % 2 ≡ 1) × ((x % 2 == 1) ≡ true)) ⊎ ((x % 2 ≡ 0) × ((x % 2 == 1) ≡ false))
dec_odd x = grind arith

dec_bit :
    (n x : ℕ)
    → ((bit n x ≡ 1) × ((bit n x == 1) ≡ true)) ⊎ ((bit n x ≡ 0) × ((bit n x == 1) ≡ false))
dec_bit n x = grind (arith, bit-lt n x)

pub trailing_zeros-below : (n j x : ℕ) → j < trailing_zeros n x → bit j x ≡ 0
unfolding trailing_zeros
trailing_zeros-below zero j x h = absurd (omega arith)
trailing_zeros-below (suc n) zero x h = ground arith
trailing_zeros-below (suc n) (suc j) x h = ground (arith, trailing_zeros-below n j (x / 2))

pub trailing_zeros-at :
    (n x : ℕ) → x ≢ 0 → x < 2 ^ n → (bit (trailing_zeros n x) x ≡ 1) × (trailing_zeros n x < n)
unfolding trailing_zeros
trailing_zeros-at zero x h small = absurd (h (omega arith))
trailing_zeros-at (suc n) x h small = elim (dec_odd x) [
  | inl (odd, test) ↦ rw test (odd, omega arith)
  | inr (even, test) ↦
      let half : x / 2 ≢ 0 = λ e. h (omega arith) in
      let (at, low) = trailing_zeros-at n (x / 2) half (omega (arith, pow-suc 2 n)) in
      let next : 1 + trailing_zeros n (x / 2) ≡ suc (trailing_zeros n (x / 2)) = omega arith in
      rw (test, next) (at, omega arith)
]

pub leading_zeros-le : (n x : ℕ) → leading_zeros n x ≤ n
unfolding leading_zeros
leading_zeros-le zero x = omega arith
leading_zeros-le (suc n) x = ground (arith, leading_zeros-le n x)

pub leading_zeros-above : (n j x : ℕ) → j < n → n ≤ j + leading_zeros n x → bit j x ≡ 0
unfolding leading_zeros
leading_zeros-above zero j x low h = absurd (omega arith)
leading_zeros-above (suc n) j x low h = elim (dec_bit n x) [
  | inl (set, test) ↦ absurd (omega (arith, top test))
  | inr (clear, test) ↦ elim (dec_top j n low) [
    | inl same ↦ rw same clear
    | inr below ↦ leading_zeros-above n j x below (omega (arith, rest test))
  ]
]
  where
    top : (bit n x == 1) ≡ true → leading_zeros (suc n) x ≡ 0
    top test = rw (leading_zeros, test) refl

    rest : (bit n x == 1) ≡ false → leading_zeros (suc n) x ≡ 1 + leading_zeros n x
    rest test = rw (leading_zeros, test) refl

    dec_top : (j n : ℕ) → j < suc n → (j ≡ n) ⊎ (j < n)
    dec_top j n h = grind arith

-- A clear top digit.
pub lt-clear : (n x : ℕ) → x < 2 ^ suc n → bit n x ≡ 0 → x < 2 ^ n
lt-clear zero x small clear = omega arith
lt-clear (suc n) x small clear = omega (
  arith,
  pow-suc 2 n,
  pow-suc 2 (suc n),
  lt-clear n (x / 2) (omega (arith, pow-suc 2 (suc n))) clear,
)

pub leading_zeros-at :
    (n x : ℕ) → x ≢ 0 → x < 2 ^ n → (p : ℕ) × (p + 1 + leading_zeros n x ≡ n) × (bit p x ≡ 1)
unfolding leading_zeros
leading_zeros-at zero x h small = absurd (h (omega arith))
leading_zeros-at (suc n) x h small = elim (dec_bit n x) [
  | inl (set, test) ↦ rw test (n, omega arith, set)
  | inr (clear, test) ↦
      let (p, at, set) = leading_zeros-at n x h (lt-clear n x small clear) in
      rw test (p, omega arith, set)
]
