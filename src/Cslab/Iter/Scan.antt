-- ===== src/Cslab/Iter/Scan.antt =====
-- What one round of a scan reads: the distance to the next flag that is set.
use zpr_utils.Base.{
  ℕ, ◌+◌, ◌-◌, ◌*◌, ◌/◌, ◌%◌, ◌^◌, ◌≤◌, ◌<◌, ◌≡◌, ◌≢◌, ◌⊎◌, inl, inr, refl, sym, ap, ◌∙◌, true,
  false, Option-cases, none, some, List, ◌==◌, get_elem?, get_elem?-of_lt, arith,
}
use native.Mathlib.Nat.{div-le_self}
use zpr_utils.Base.Bits.{bit, bit-zero}
use zpr_utils.Base.Zeros.{
  bit-shr, trailing_zeros, trailing_zeros-below, trailing_zeros-at, leading_zeros,
  leading_zeros-above, leading_zeros-at,
}
use zpr_utils.Base.Shifts.{bit-beyond, bit-shl, bit-shl_low, bit-mod}
use zpr_utils.Base.Exec.{value}
use zpr_utils.Cslab.Storage.{bits, get_unchecked_impl}
use zpr_utils.Cslab.Slab.{Cslab}
use zpr_utils.Cslab.Bitmap.{bit_at}
use zpr_utils.Cslab.Model.{Slot, vacant, present, pending, Model, lookup, shown}
use zpr_utils.Cslab.Represents.{Represents, Holds}
use zpr_utils.Cslab.Refines.Slots.{lt_or_ge}
use zpr_utils.Cslab.Refines.Lookup.{get_unchecked_impl-item}
use zpr_utils.Cslab.Iter.{shifted_down, shifted_up, distance, distance_back}

dec_zero : (n : ℕ) → ((n ≡ 0) × ((n == 0) ≡ true)) ⊎ ((n ≢ 0) × ((n == 0) ≡ false))
dec_zero n = grind arith

module _ (bitmap : List ℕ) (h word : ℕ) (read : get_elem? bitmap (h / bits) ≡ some word)
    (width : word < 2 ^ 64) where
  abbrev down : ℕ
  down = shifted_down word h

  bit-down : (j : ℕ) → h % bits + j < bits → bit_at bitmap (h + j) ≡ bit j down
  unfolding bit_at
  bit-down j inside =
      let same : (h + j) / bits ≡ h / bits = omega arith in
      let place : (h + j) % bits ≡ h % bits + j = omega arith in
      rw (same, place, read) (sym (bit-shr (h % bits) j word))

  down-lt : down < 2 ^ 64
  down-lt = omega (arith, div-le_self word (2 ^ (h % bits)))

  inside_of_set : (j : ℕ) → bit j down ≡ 1 → h % bits + j < bits
  inside_of_set j set = elim (lt_or_ge bits (h % bits + j)) [
    | inl inside ↦ inside
    | inr high ↦
        absurd
          (omega (arith, bit-shr (h % bits) j word, bit-beyond 64 (h % bits + j) word width high))
  ]

  -- Up to the distance no flag is set; where the rest of the word is not zero, the one there is.
  pub distance-clear : (j : ℕ) → j < distance down h → bit_at bitmap (h + j) ≡ 0
  distance-clear j near = elim (dec_zero down) [
    | inl (none_left, test) ↦
        let inside : h % bits + j < bits = ground arith in
        bit-down j inside ∙ ap (bit j) none_left ∙ bit-zero j
    | inr (some_left, test) ↦
        let (at, low) = trailing_zeros-at 64 down some_left down-lt in
        let close : j < trailing_zeros 64 down = ground arith in
        let inside = inside_of_set (trailing_zeros 64 down) at in
        bit-down j (omega arith) ∙ trailing_zeros-below 64 j down close
  ]

  pub distance-set : (down == 0) ≡ false → bit_at bitmap (h + distance down h) ≡ 1
  distance-set test =
      let some_left : down ≢ 0 = λ e. ground arith in
      let (at, low) = trailing_zeros-at 64 down some_left down-lt in
      rw test (bit-down (trailing_zeros 64 down) (inside_of_set (trailing_zeros 64 down) at) ∙ at)

module _ (bitmap : List ℕ) (l word : ℕ) (read : get_elem? bitmap (l / bits) ≡ some word) where
  abbrev up : ℕ
  up = shifted_up word l

  bit-up : (j : ℕ) → j ≤ l % bits → bit_at bitmap (l - j) ≡ bit (63 - j) up
  unfolding bit_at
  bit-up j inside =
      let same : (l - j) / bits ≡ l / bits = omega arith in
      let place : (l - j) % bits ≡ l % bits - j = omega arith in
      let s = bits - (l % bits + 1) in
      let index : 63 - j ≡ s + (l % bits - j) = omega arith in
      rw (same, place, read, index)
        (sym (
          bit-mod 64 (s + (l % bits - j)) (word * 2 ^ s) (omega arith)
          ∙ bit-shl s (l % bits - j) word))

  up-lt : up < 2 ^ 64
  up-lt = omega arith

  -- The highest digit that is set is above the zeros that were shifted in.
  above_shift : (p : ℕ) → p < 64 → bit p up ≡ 1 → bits - (l % bits + 1) ≤ p
  above_shift p low set = elim (lt_or_ge (bits - (l % bits + 1)) p) [
    | inl below ↦
        let s = bits - (l % bits + 1) in
        absurd (omega (arith, bit-mod 64 p (word * 2 ^ s) low, bit-shl_low s p word below))
    | inr high ↦ high
  ]

  distance_back-le : distance_back up l ≤ l % bits + 1
  distance_back-le = elim (dec_zero up) [
    | inl (_, test) ↦ ground arith
    | inr (some_left, test) ↦
        let (p, at, set) = leading_zeros-at 64 up some_left up-lt in
        let high = above_shift p (omega arith) set in ground arith
  ]

  pub distance_back-clear : (j : ℕ) → j < distance_back up l → bit_at bitmap (l - j) ≡ 0
  distance_back-clear j near = elim (dec_zero up) [
    | inl (none_left, test) ↦
        bit-up j (omega (arith, distance_back-le)) ∙ ap (bit (63 - j)) none_left ∙ bit-zero (63 - j)
    | inr (some_left, test) ↦
        let close : j < leading_zeros 64 up = ground arith in
        let (p, at, set) = leading_zeros-at 64 up some_left up-lt in
        bit-up j (omega (arith, distance_back-le))
        ∙ leading_zeros-above 64 (63 - j) up (omega arith) (omega arith)
  ]

  pub distance_back-set :
      (up == 0) ≡ false → (bit_at bitmap (l - distance_back up l) ≡ 1) × (distance_back up l ≤ l)
  distance_back-set test =
      let some_left : up ≢ 0 = λ e. ground arith in
      let (p, at, set) = leading_zeros-at 64 up some_left up-lt in
      let high = above_shift p (omega arith) set in
      let place : 63 - leading_zeros 64 up ≡ p = omega arith in
      rw test
        (bit-up (leading_zeros 64 up) (omega arith) ∙ ap (λ t. bit t up) place ∙ set, omega arith)

-- The flags of a slab that represents a model are the items that it shows.
module _ {ℓ} {T : Type ℓ} (c : Cslab T) (m : Model T) (rep : Represents c m) (i : ℕ) where
  pub lookup-clear : bit_at c.bitmap i ≡ 0 → lookup m i ≡ none
  lookup-clear clear = elim (Option-cases (get_elem? m.slots i)) [
    | inl e ↦ ap shown e
    | inr (s, e) ↦ ap shown e ∙ hidden s (rep.holds i s e)
  ]
    where
      hidden :
          (s : Slot T) → Holds s (get_elem? c.table i) (bit_at c.bitmap i) → shown (some s) ≡ none
      hidden vacant h = refl
      hidden (present v) h = absurd (omega (arith, h.1))
      hidden (pending v) h = refl

  pub lookup-set :
      bit_at c.bitmap i ≡ 1
      → (v : T) × (lookup m i ≡ some v) × (get_unchecked_impl c.storage i ≡ value v) × (i < c.size)
  lookup-set set = elim (lt_or_ge c.size i) [
    | inl low ↦
        let (s, e) = get_elem?-of_lt m.slots i (omega (arith, rep.slots_len)) in
        by_slot s e (rep.holds i s e) low
    | inr high ↦ absurd (omega (arith, rep.beyond i high))
  ]
    where
      by_slot :
          (s : Slot T)
          → get_elem? m.slots i ≡ some s
          → Holds s (get_elem? c.table i) (bit_at c.bitmap i)
          → i < c.size
          → (v : T) × (lookup m i ≡ some v)
            × (get_unchecked_impl c.storage i ≡ value v)
            × (i < c.size)
      by_slot vacant e h low = absurd (omega (arith, h.1))
      by_slot (present v) e h low =
          (v, ap shown e, get_unchecked_impl-item c m rep i v (inl e), low)
      by_slot (pending v) e h low = absurd (omega (arith, h.1))
