-- ===== src/Cslab/Refines/Create.antt =====
-- A new slab represents the empty model.
use zpr_utils.Base.{
  All-replicate, ℕ, ◌^◌, ◌≤◌, ◌<◌, ◌≡◌, ◌≢◌, refl, sym, subst, ◌∙◌, false, ◌⊎◌, inl, inr, zero, suc,
  ◌==◌, some, length-replicate, get_elem?, get_elem?-replicate, lt_of_get_elem?, replicate, arith,
}
use zpr_utils.Base.Int.{pos}
use zpr_utils.Base.Exec.{value, panic, undefined}
use zpr_utils.Cslab.Storage.{
  Allocation, no_layout, no_memory, zeroed, Entry, next_free, bitmap_len,
  storage_with_fixed_capacity,
}
use zpr_utils.Cslab.Slab.{Cslab, with_fixed_capacity}
use zpr_utils.Cslab.Bitmap.{bit_at, bit_at-replicate}
use zpr_utils.Cslab.Model.{Slot, vacant, present, initial, is_present, is_taken}
use zpr_utils.Cslab.Represents.{Represents, Holds}
use zpr_utils.Cslab.Refines.Chains.{
  Chain-initial, vacant-initial, Distinct-range_from, length-range_from,
}
use zpr_utils.Cslab.Refines.Counts.{count-replicate}

module _ {ℓ} (T : Type ℓ) (n : ℕ) (small : n < 2 ^ 63) where
  abbrev pub fresh : Cslab T
  fresh = record {
    first_free = 0;
    in_use = 0;
    allocated = 0;
    storage = record {
      size = n;
      frontier = 0;
      table = replicate n (next_free (pos 0));
      bitmap = replicate (bitmap_len n) 0;
    };
  }

  all_vacant :
      (i : ℕ) {s : Slot T} → get_elem? (initial {T = T} n).slots i ≡ some s → (i < n) × (vacant ≡ s)
  all_vacant i {s} e =
      let low : i < n = omega (
        arith,
        lt_of_get_elem? (initial {T = T} n).slots i e,
        length-replicate {A = Slot T} n vacant,
      ) in
      let found = sym (get_elem?-replicate {A = Slot T} n vacant i low) ∙ e in (low, cc)

  pub fresh-Represents : Represents fresh (initial n)
  fresh-Represents = record {
    table_len = length-replicate {A = Entry T} n (next_free (pos 0));
    words_len = length-replicate {A = ℕ} (bitmap_len n) 0;
    word_width = All-replicate (λ w. w < 2 ^ 64) (bitmap_len n) 0 (omega arith);
    slots_len = length-replicate {A = Slot T} n vacant;
    addressable = small;
    holds = λ i s e.
        let (low, same) = all_vacant i e in
        subst (λ t. Holds t (get_elem? fresh.table i) (bit_at fresh.bitmap i)) same
          (
            (pos 0, get_elem?-replicate {A = Entry T} n (next_free (pos 0)) i low),
            bit_at-replicate (bitmap_len n) i,
          );
    beyond = λ i _. bit_at-replicate (bitmap_len n) i;
    chain = Chain-initial T n 0 n small (omega arith);
    distinct = Distinct-range_from 0 n;
    free_vacant = vacant-initial T n 0 n (omega arith);
    in_use_count = sym (count-replicate {T = T} is_present n refl);
    allocated_count = sym (count-replicate {T = T} is_taken n refl);
    free_count = omega (arith, length-range_from 0 n);
    frontier_le = omega arith;
    frontier_above = λ i v e. let same : vacant ≡ present v = (all_vacant i e).1 in cc;
  }

-- `Layout` never exceeds isize::MAX bytes, and an entry takes at least eight.
abbrev pub LayoutBounded : (ℕ → Allocation) → Type 0
LayoutBounded allocates = (n : ℕ) → allocates n ≢ no_layout → n < 2 ^ 63

-- Where only capacities below 2 ^ 63 have a layout, `with_fixed_capacity` panics, on capacity zero
-- or without a layout; or is undefined, on a positive capacity for which the allocator returns
-- null; or returns a slab that represents the empty model of that capacity, for which the allocator
-- returned zeroed memory.
pub with_fixed_capacity-initial {ℓ} :
    (T : Type ℓ) (allocates : ℕ → Allocation) (n : ℕ)
    → LayoutBounded allocates
    → (((n ≡ 0) ⊎ (allocates n ≡ no_layout)) × (with_fixed_capacity {T = T} allocates n ≡ panic))
      ⊎ (((1 ≤ n)
            × (allocates n ≡ no_memory)
            × (with_fixed_capacity {T = T} allocates n ≡ undefined))
          ⊎ ((c : Cslab T) × (with_fixed_capacity allocates n ≡ value c)
              × Represents c (initial n)
              × (allocates n ≡ zeroed)))
unfolding with_fixed_capacity storage_with_fixed_capacity
with_fixed_capacity-initial T allocates zero bounded = inl (inl refl, refl)
with_fixed_capacity-initial T allocates (suc n) bounded = by_memory (allocates (suc n)) refl
  where
    nonzero : (suc n == 0) ≡ false
    nonzero = ground arith

    by_memory :
        (memory : Allocation)
        → allocates (suc n) ≡ memory
        → (((suc n ≡ 0) ⊎ (allocates (suc n) ≡ no_layout))
            × (with_fixed_capacity {T = T} allocates (suc n) ≡ panic))
          ⊎ (((1 ≤ suc n)
                × (allocates (suc n) ≡ no_memory)
                × (with_fixed_capacity {T = T} allocates (suc n) ≡ undefined))
              ⊎ ((c : Cslab T) × (with_fixed_capacity allocates (suc n) ≡ value c)
                  × Represents c (initial (suc n))
                  × (allocates (suc n) ≡ zeroed)))
    by_memory no_layout e = inl (inr e, rw (nonzero, e) refl)
    by_memory no_memory e = inr (inl (omega arith, e, rw (nonzero, e) refl))
    by_memory zeroed e =
        let small = bounded (suc n) (λ none. cc) in
        inr (inr (fresh T (suc n) small, rw (nonzero, e) refl, fresh-Represents T (suc n) small, e))
