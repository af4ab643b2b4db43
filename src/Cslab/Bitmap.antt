-- ===== src/Cslab/Bitmap.antt =====
-- The bitmap as a function from indexes to bits, and what the stores of one flag do to it.
use zpr_utils.Base.{
  ℕ, ◌-◌, ◌/◌, ◌%◌, ◌^◌, ◌≤◌, ◌<◌, ◌≡◌, ◌≢◌, ◌⊎◌, inl, inr, sym, ap, subst, bit_and, bit_or, true,
  false, Option, none, some, List, ◌==◌, if◌then◌else◌, length, get_elem?, set, get_elem?_beyond,
  get_elem?-replicate, replicate, length-replicate, get_elem?-set_self, get_elem?-set_ne,
  lt_of_get_elem?, arith,
}
use zpr_utils.Base.Bits.{
  bit, bit-zero, bit-lt, bit-bit_or, bit-bit_and, shift_mask, bit-pow_self, bit-pow_ne, bit_not,
  pow-lt, bit_or-lt, bit_and-lt,
}
use zpr_utils.Cslab.Storage.{bits, flag, bitmap_len}
use zpr_utils.Cslab.Slab.{with_flag, without_flag}

pub dec_eq : (a b : ℕ) → ((a ≡ b) × ((a == b) ≡ true)) ⊎ ((a ≢ b) × ((a == b) ≡ false))
dec_eq a b = grind arith

abbrev pub word_bit : Option ℕ → ℕ → ℕ
word_bit none b = 0
word_bit (some word) b = bit b word

unfoldable pub bit_at : List ℕ → ℕ → ℕ
bit_at bitmap i = word_bit (get_elem? bitmap (i / bits)) (i % bits)

pub bit_at-lt_two : (bitmap : List ℕ) (i : ℕ) → bit_at bitmap i < 2
unfolding bit_at
bit_at-lt_two bitmap i = small (get_elem? bitmap (i / bits))
  where
    small : (o : Option ℕ) → word_bit o (i % bits) < 2
    small none = omega arith
    small (some word) = bit-lt (i % bits) word

pub flag-bit_at :
    (bitmap : List ℕ) (i word : ℕ)
    → get_elem? bitmap (i / bits) ≡ some word
    → flag word i ≡ bit_at bitmap i
unfolding bit_at
flag-bit_at bitmap i word e = rw e (shift_mask (i % bits) word)

or_pow-bit : (word p b : ℕ) → bit b (bit_or word (2 ^ p)) ≡ (if p == b then 1 else bit b word)
or_pow-bit word p b = elim (dec_eq p b) [
  | inl (same, test) ↦
      rw (test, bit-bit_or b word (2 ^ p), same) (omega (arith, bit-lt b word, bit-pow_self b))
  | inr (other, test) ↦
      rw (test, bit-bit_or b word (2 ^ p)) (omega (arith, bit-pow_ne b p (λ e. other (sym e))))
]

and_not_pow-bit :
    (word p b : ℕ)
    → b < bits
    → p < bits
    → bit b (bit_and word (2 ^ 64 - 1 - 2 ^ p)) ≡ (if p == b then 0 else bit b word)
and_not_pow-bit word p b hb hp = elim (dec_eq p b) [
  | inl (same, test) ↦
      rw (test, bit-bit_and b word (2 ^ 64 - 1 - 2 ^ p))
        (omega (
          arith,
          bit_not 64 b (2 ^ p) hb (pow-lt p 64 hp),
          ap (λ (t : ℕ). bit b (2 ^ t)) same,
          bit-pow_self b,
        ))
  | inr (other, test) ↦
      rw (test, bit-bit_and b word (2 ^ 64 - 1 - 2 ^ p))
        (omega (
          arith,
          bit-lt b word,
          bit_not 64 b (2 ^ p) hb (pow-lt p 64 hp),
          bit-pow_ne b p (λ e. other (sym e)),
        ))
]

same_place : (i j : ℕ) → i / bits ≡ j / bits → (i % bits == j % bits) ≡ (i == j)
same_place i j h = ground arith

-- A store to the word of `i` that changes only the flag of `i` does so in the bitmap.
module _ (bitmap : List ℕ) (i word v w : ℕ) (e : get_elem? bitmap (i / bits) ≡ some word)
    (one : (b : ℕ) → b < bits → bit b w ≡ (if i % bits == b then v else bit b word)) where
  pub bit_at-store :
      (j : ℕ) → bit_at (set bitmap (i / bits) w) j ≡ (if i == j then v else bit_at bitmap j)
  unfolding bit_at
  bit_at-store j = elim (dec_eq (i / bits) (j / bits)) [
    | inl (same, _) ↦
        let read : get_elem? (set bitmap (i / bits) w) (j / bits) ≡ some w =
          rw (← same)
            (get_elem?-set_self bitmap (i / bits) w (lt_of_get_elem? bitmap (i / bits) e)) in
        let old : get_elem? bitmap (j / bits) ≡ some word = rw (← same) e in
        let agree : (i % bits == j % bits) ≡ (i == j) = same_place i j same in
        rw (read, old)
          (subst (λ t. bit (j % bits) w ≡ (if t then v else bit (j % bits) word)) agree
            (one (j % bits) (omega arith)))
    | inr (other, _) ↦
        let test : (i == j) ≡ false = ground arith in
        rw (test, get_elem?-set_ne bitmap (i / bits) (j / bits) w other)
  ]

module _ (bitmap : List ℕ) (i word : ℕ) (e : get_elem? bitmap (i / bits) ≡ some word) where
  pub bit_at-with_flag :
      (j : ℕ)
      → bit_at (set bitmap (i / bits) (with_flag word i)) j
        ≡ (if i == j then 1 else bit_at bitmap j)
  bit_at-with_flag =
      bit_at-store bitmap i word 1 (with_flag word i) e (λ b h. or_pow-bit word (i % bits) b)

  pub bit_at-without_flag :
      (j : ℕ)
      → bit_at (set bitmap (i / bits) (without_flag word i)) j
        ≡ (if i == j then 0 else bit_at bitmap j)
  bit_at-without_flag =
      bit_at-store bitmap i word 0 (without_flag word i) e
        (λ b h. and_not_pow-bit word (i % bits) b h (omega arith))

-- The stores keep the width of a word.
pub with_flag-lt : (word i : ℕ) → word < 2 ^ 64 → with_flag word i < 2 ^ 64
with_flag-lt word i h = bit_or-lt 64 word (2 ^ (i % bits)) h (pow-lt (i % bits) 64 (omega arith))

pub without_flag-lt : (word i : ℕ) → without_flag word i < 2 ^ 64
without_flag-lt word i = bit_and-lt 64 word (2 ^ 64 - 1 - 2 ^ (i % bits)) (omega arith)

-- Every index below the capacity has its word.
pub word_in_range : (n i : ℕ) → i < n → i / bits < bitmap_len n
word_in_range n i h = omega arith

-- Beyond the bitmap no flag is set.
pub bit_at-beyond : (bitmap : List ℕ) (i : ℕ) → length bitmap ≤ i / bits → bit_at bitmap i ≡ 0
unfolding bit_at
bit_at-beyond bitmap i h = rw (get_elem?_beyond bitmap (i / bits) h)

pub bit_at-replicate : (n i : ℕ) → bit_at (replicate n 0) i ≡ 0
unfolding bit_at
bit_at-replicate n i = elim (dec_below i n) [
  | inl h ↦ rw (get_elem?-replicate {A = ℕ} n 0 (i / bits) h) (bit-zero (i % bits))
  | inr h ↦
      rw (get_elem?_beyond (replicate {A = ℕ} n 0) (i / bits) (rw (length-replicate {A = ℕ} n 0) h))
]
  where
    dec_below : (i n : ℕ) → (i / bits < n) ⊎ (n ≤ i / bits)
    dec_below i n = grind arith
