-- ===== src/Base/Shifts.antt =====
-- The digits of a number that is shifted up, cut off or too small.
use Prim.Native.Nat.{ℕ, zero, suc, ◌+◌, ◌*◌, ◌/◌, ◌%◌, ◌^◌, ◌≤◌, ◌<◌}
use mathlib.Core.Path.{◌≡◌, refl, sym, ap, ◌∙◌}
use native.Mathlib.Nat.{pow-suc, div-add-mod'}
use native.Mathlib.Omega.{arith}
use zpr_utils.Base.Bits.{bit, bit-zero}

pub bit-beyond : (w i x : ℕ) → x < 2 ^ w → w ≤ i → bit i x ≡ 0
bit-beyond zero i x small high = let none : x ≡ 0 = omega arith in rw none (bit-zero i)
bit-beyond (suc w) zero x small high = absurd (omega arith)
bit-beyond (suc w) (suc i) x small high =
    bit-beyond w i (x / 2) (omega (arith, pow-suc 2 w)) (omega arith)

-- Half of what is shifted up by one more.
half_shl : (s x : ℕ) → x * 2 ^ suc s / 2 ≡ x * 2 ^ s
half_shl s x = omega (arith, ap (λ (t : ℕ). x * t) (pow-suc 2 s))

pub bit-shl : (s j x : ℕ) → bit (s + j) (x * 2 ^ s) ≡ bit j x
bit-shl zero j x =
    let index : 0 + j ≡ j = omega arith in
    let whole : x * 1 ≡ x = omega arith in rw (index, whole) refl
bit-shl (suc s) j x =
    let index : suc s + j ≡ suc (s + j) = omega arith in
    rw index (ap (bit (s + j)) (half_shl s x) ∙ bit-shl s j x)

pub bit-shl_low : (s i x : ℕ) → i < s → bit i (x * 2 ^ s) ≡ 0
bit-shl_low zero i x h = absurd (omega arith)
bit-shl_low (suc s) zero x h = omega (arith, ap (λ (t : ℕ). x * t) (pow-suc 2 s))
bit-shl_low (suc s) (suc i) x h = rw (half_shl s x) (bit-shl_low s i x (omega arith))

bit-low_part : (w i q r : ℕ) → i < w → bit i (q * 2 ^ w + r) ≡ bit i r
bit-low_part zero i q r h = absurd (omega arith)
bit-low_part (suc w) zero q r h = omega (arith, ap (λ (t : ℕ). q * t) (pow-suc 2 w))
bit-low_part (suc w) (suc i) q r h =
    let half : (q * 2 ^ suc w + r) / 2 ≡ q * 2 ^ w + r / 2 =
      omega (arith, ap (λ (t : ℕ). q * t) (pow-suc 2 w)) in
    rw half (bit-low_part w i q (r / 2) (omega arith))

pub bit-mod : (w i x : ℕ) → i < w → bit i (x % 2 ^ w) ≡ bit i x
bit-mod w i x h =
    let whole : x / 2 ^ w * 2 ^ w + x % 2 ^ w ≡ x = div-add-mod' x (2 ^ w) in
    sym (bit-low_part w i (x / 2 ^ w) (x % 2 ^ w) h) ∙ ap (bit i) whole
