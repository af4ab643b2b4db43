-- ===== src/Base/Bits.antt =====
-- Bit operations on native numbers at variables. `bit j x` is the digit of weight 2 ^ j: it reads
-- `|`, `&` and `^` digit by digit, and the operations keep a width.
use Prim.Native.Nat.{
  ℕ, zero, suc, ◌+◌, ◌-◌, ◌*◌, ◌/◌, ◌%◌, ◌^◌, ◌≤◌, ◌<◌, min, max, digits, differ, bit_and, bit_or,
  bit_xor, bit_and-bitwise, bit_or-bitwise, bit_xor-bitwise,
}
use mathlib.Core.Path.{◌≡◌, refl, ap, ◌∙◌}
use mathlib.Core.Logic.{◌≢◌}
use native.Mathlib.Nat.{pow-suc, one-le-pow, mul_comm, div-div-eq-div-mul}
use native.Mathlib.Omega.{arith}

abbrev pub bit : ℕ → ℕ → ℕ
bit zero x = x % 2
bit (suc j) x = bit j (x / 2)

pub bit-lt : (j x : ℕ) → bit j x < 2
bit-lt zero x = omega arith
bit-lt (suc j) x = bit-lt j (x / 2)

pub bit-zero : (j : ℕ) → bit j 0 ≡ 0
bit-zero zero = refl
bit-zero (suc j) = bit-zero j

-- The operation `f` on digits, with `z` once the first number has run out.
module _ (z : ℕ → ℕ) (f : ℕ → ℕ → ℕ) (small : (x y : ℕ) → x < 2 → y < 2 → f x y < 2)
    (rest : (j b : ℕ) → bit j (z b) ≡ f 0 (bit j b)) where
  run_out : (j b : ℕ) → bit j (z b) ≡ f (bit j 0) (bit j b)
  run_out j b = grind (arith, rest j b, bit-zero j)

  bit-digits : (n j a b : ℕ) → a ≤ n → bit j (digits z f n a b) ≡ f (bit j a) (bit j b)
  bit-digits zero j zero b h = run_out j b
  bit-digits zero j (suc a) b h = elim h [ ]
  bit-digits (suc n) j zero b h = run_out j b
  bit-digits (suc n) zero (suc a) b h =
      omega (arith, small (suc a % 2) (b % 2) (omega arith) (omega arith))
  bit-digits (suc n) (suc j) (suc a) b h =
      let top : (digits z f (suc n) (suc a) b) / 2 ≡ digits z f n (suc a / 2) (b / 2) =
        omega (arith, small (suc a % 2) (b % 2) (omega arith) (omega arith)) in
      grind (arith, ap (bit j) top, bit-digits n j (suc a / 2) (b / 2) (omega arith))

  digits-lt :
      (width : (w b : ℕ) → b < 2 ^ w → z b < 2 ^ w)
      → (n w a b : ℕ) → a < 2 ^ w
      → b < 2 ^ w
      → digits z f n a b < 2 ^ w
  digits-lt width zero w a b ha hb = width w b hb
  digits-lt width (suc n) w zero b ha hb = width w b hb
  digits-lt width (suc n) zero (suc a) b ha hb = absurd (omega arith)
  digits-lt width (suc n) (suc w) (suc a) b ha hb = omega (
    arith,
    pow-suc 2 w,
    small (suc a % 2) (b % 2) (omega arith) (omega arith),
    digits-lt width n w (suc a / 2) (b / 2) (omega (arith, pow-suc 2 w))
        (omega (arith, pow-suc 2 w)),
  )

differ-lt : (x y : ℕ) → x < 2 → y < 2 → differ x y < 2
differ-lt zero y hx hy = hy
differ-lt (suc x) zero hx hy = hx
differ-lt (suc x) (suc y) hx hy = differ-lt x y (omega arith) (omega arith)

pub bit-bit_or : (j a b : ℕ) → bit j (bit_or a b) ≡ max (bit j a) (bit j b)
bit-bit_or j a b =
    rw (bit_or-bitwise a b)
      (bit-digits (λ y. y) max (λ x y p q. omega arith) (λ j b. omega arith) a j a b (omega arith))

pub bit-bit_and : (j a b : ℕ) → bit j (bit_and a b) ≡ min (bit j a) (bit j b)
bit-bit_and j a b = rw (bit_and-bitwise a b) (
    bit-digits (λ _. 0) min (λ x y p q. omega arith) (λ j b. omega (arith, bit-zero j)) a j a b
      (omega arith))

pub bit_or-lt : (w a b : ℕ) → a < 2 ^ w → b < 2 ^ w → bit_or a b < 2 ^ w
bit_or-lt w a b ha hb = rw (bit_or-bitwise a b) (
    digits-lt (λ y. y) max (λ x y p q. omega arith) (λ j b. omega arith) (λ w b h. h) a w a b ha hb)

-- `&` keeps the width of its second argument, whatever the first.
and_digits-lt : (n w a b : ℕ) → b < 2 ^ w → digits (λ _. 0) min n a b < 2 ^ w
and_digits-lt zero w a b h = omega arith
and_digits-lt (suc n) w zero b h = omega arith
and_digits-lt (suc n) zero (suc a) b h =
    omega (arith, and_digits-lt n zero (suc a / 2) (b / 2) (omega arith))
and_digits-lt (suc n) (suc w) (suc a) b h =
    omega (arith, pow-suc 2 w, and_digits-lt n w (suc a / 2) (b / 2) (omega (arith, pow-suc 2 w)))

pub bit_and-lt : (w a b : ℕ) → b < 2 ^ w → bit_and a b < 2 ^ w
bit_and-lt w a b h = rw (bit_and-bitwise a b) (and_digits-lt a w a b h)

pub bit_xor-lt : (w a b : ℕ) → a < 2 ^ w → b < 2 ^ w → bit_xor a b < 2 ^ w
bit_xor-lt w a b ha hb =
    rw (bit_xor-bitwise a b)
      (digits-lt (λ y. y) differ differ-lt (λ j b. refl) (λ w b h. h) a w a b ha hb)

-- `|` of a number whose low `k` digits are zero with one of `k` digits is a sum.
or_digits : (n k q r a : ℕ) → a ≡ q * 2 ^ k → a ≤ n → r < 2 ^ k → digits (λ y. y) max n a r ≡ a + r
or_digits zero k q r zero e h fits = omega arith
or_digits zero k q r (suc a) e h fits = elim h [ ]
or_digits (suc n) k q r zero e h fits = omega arith
or_digits (suc n) zero q r (suc a) e h fits = omega (
  arith,
  or_digits n zero (suc a / 2) (r / 2) (suc a / 2) (omega arith) (omega arith) (omega arith),
)
or_digits (suc n) (suc k) q r (suc a) e h fits =
    let even : suc a ≡ 2 * (q * 2 ^ k) = omega (arith, ap (λ (t : ℕ). q * t) (pow-suc 2 k)) in
    omega (
      arith,
      or_digits n k q (r / 2) (suc a / 2) (omega arith) (omega arith) (omega (arith, pow-suc 2 k)),
    )

pub bit_or_fields : (k q r : ℕ) → r < 2 ^ k → bit_or (q * 2 ^ k) r ≡ q * 2 ^ k + r
bit_or_fields k q r fits =
    rw (bit_or-bitwise (q * 2 ^ k) r)
      (or_digits (q * 2 ^ k) k q r (q * 2 ^ k) refl (omega arith) fits)

-- The digit of weight 2 ^ b, as code reads it: shift, then mask by one.
pub bit-div : (b x : ℕ) → (x / 2 ^ b) % 2 ≡ bit b x
bit-div zero x = omega arith
bit-div (suc b) x =
    rw (pow-suc, mul_comm (2 ^ b) 2, ← div-div-eq-div-mul x 2 (2 ^ b)) (bit-div b (x / 2))

pub bit_and-one : (x : ℕ) → bit_and x 1 ≡ x % 2
bit_and-one x = omega (arith, bit-bit_and 0 x 1, bit_and-lt 1 x 1 (omega arith))

pub shift_mask : (b x : ℕ) → bit_and (x / 2 ^ b) 1 ≡ bit b x
shift_mask b x = bit_and-one (x / 2 ^ b) ∙ bit-div b x

-- The digits of a power of two, and of a complement within `w` digits.
pub bit-pow_self : (b : ℕ) → bit b (2 ^ b) ≡ 1
bit-pow_self zero = refl
bit-pow_self (suc b) =
    let half : 2 ^ suc b / 2 ≡ 2 ^ b = omega (arith, pow-suc 2 b) in rw half (bit-pow_self b)

pub bit-pow_ne : (j b : ℕ) → j ≢ b → bit j (2 ^ b) ≡ 0
bit-pow_ne zero zero h = absurd (h refl)
bit-pow_ne zero (suc b) h = omega (arith, pow-suc 2 b)
bit-pow_ne (suc j) zero h = bit-zero j
bit-pow_ne (suc j) (suc b) h =
    let half : 2 ^ suc b / 2 ≡ 2 ^ b = omega (arith, pow-suc 2 b) in
    rw half (bit-pow_ne j b (λ e. h (ap suc e)))

pub bit_not : (w j c : ℕ) → j < w → c < 2 ^ w → bit j (2 ^ w - 1 - c) ≡ 1 - bit j c
bit_not zero j c h hc = elim h [ ]
bit_not (suc w) zero c h hc = omega (arith, pow-suc 2 w)
bit_not (suc w) (suc j) c h hc =
    let half : (2 ^ suc w - 1 - c) / 2 ≡ 2 ^ w - 1 - c / 2 = omega (arith, pow-suc 2 w) in
    rw half (bit_not w j (c / 2) (omega arith) (omega (arith, pow-suc 2 w)))

pub pow-lt : (b w : ℕ) → b < w → 2 ^ b < 2 ^ w
pow-lt b zero h = elim h [ ]
pow-lt zero (suc w) h = omega (arith, pow-suc 2 w, one-le-pow w 2)
pow-lt (suc b) (suc w) h = omega (arith, pow-suc 2 b, pow-suc 2 w, pow-lt b w (omega arith))
