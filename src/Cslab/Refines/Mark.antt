-- ===== src/Cslab/Refines/Mark.antt =====
-- `mark_removed` implements `hide`, and panics where no item is present.
use zpr_utils.Base.{
  ◌⊎◌, All-set, ◌^◌, ℕ, ◌-◌, ◌/◌, ◌<◌, ◌≡◌, ◌≢◌, inl, inr, refl, sym, ap, ◌∙◌, none, some,
  Option-cases, length-set, get_elem?, set, lt_of_get_elem?, get_elem?-set_ne, get_elem?-set_self,
  arith,
}
use zpr_utils.Base.Exec.{value, panic}
use zpr_utils.Cslab.Refines.Lookup.{shown_inv}
use zpr_utils.Cslab.Storage.{bits, flag}
use zpr_utils.Cslab.Slab.{Cslab, mark_removed, without_flag}
use zpr_utils.Cslab.Bitmap.{without_flag-lt, dec_eq, flag-bit_at, bit_at-without_flag}
use zpr_utils.Cslab.Model.{vacant, present, pending, Model, hide, lookup, is_present, is_taken}
use zpr_utils.Cslab.Represents.{Represents}
use zpr_utils.Cslab.Refines.Chains.{Apart-of_vacant, vacant-set}
use zpr_utils.Cslab.Refines.Slots.{word_of, absent_clear, Holds-update, flag_here, flag_there}
use zpr_utils.Cslab.Refines.Counts.{count-set}

module _ {ℓ} {T : Type ℓ} (c : Cslab T) (m : Model T) (rep : Represents c m) (i : ℕ) (v : T) where
  present_ne_vacant : present v ≢ vacant
  present_ne_vacant = λ e. cc

  module _ (slot : get_elem? m.slots i ≡ some (present v)) (word : ℕ)
      (read : get_elem? c.bitmap (i / bits) ≡ some word) where
    abbrev marked : Cslab T
    marked = record {
      first_free = c.first_free;
      in_use = c.in_use - 1;
      allocated = c.allocated;
      storage = record {
        size = c.size;
        frontier = c.frontier;
        table = c.table;
        bitmap = set c.bitmap (i / bits) (without_flag word i);
      };
    }

    mark_runs : mark_removed i c ≡ value marked
    unfolding mark_removed
    mark_runs =
        let holds = rep.holds i (present v) slot in
        ground (
          arith,
          flag-bit_at c.bitmap i word read,
          rep.in_use_count,
          count-set is_present m.slots i (present v) vacant slot,
        )

    marked-frontier :
        (j : ℕ) (u : T) → get_elem? (hide i v m).slots j ≡ some (present u) → j < c.frontier
    marked-frontier j u found = elim (dec_eq i j) [
      | inl (same, _) ↦
          let here =
            sym (get_elem?-set_self m.slots i (pending v) (lt_of_get_elem? m.slots i slot))
            ∙ ap (get_elem? (hide i v m).slots) same
            ∙ found in
          cc
      | inr (other, _) ↦
          rep.frontier_above j u (sym (get_elem?-set_ne m.slots i j (pending v) other) ∙ found)
    ]

    marked-Represents : Represents marked (hide i v m)
    marked-Represents =
        let stored = bit_at-without_flag c.bitmap i word read in
        let low = lt_of_get_elem? m.slots i slot in
        record {
          table_len = rep.table_len;
          words_len = length-set c.bitmap (i / bits) (without_flag word i) ∙ rep.words_len;
          word_width =
              All-set (λ w. w < 2 ^ 64) c.bitmap (i / bits) (without_flag word i) rep.word_width
                (without_flag-lt word i);
          slots_len = length-set m.slots i (pending v) ∙ rep.slots_len;
          addressable = rep.addressable;
          holds =
              Holds-update m.slots c.table c.table c.bitmap marked.bitmap i (pending v)
                ((rep.holds i (present v) slot).0, flag_here c.bitmap marked.bitmap i 0 stored)
                (λ j ne. refl) (flag_there c.bitmap marked.bitmap i 0 stored) low rep.holds;
          beyond = λ j high.
              flag_there c.bitmap marked.bitmap i 0 stored j
                (λ same. absurd (omega (arith, rep.slots_len)))
              ∙ rep.beyond j high;
          chain = rep.chain;
          distinct = rep.distinct;
          free_vacant =
              vacant-set m.slots i (pending v) m.free
                (Apart-of_vacant m.slots i (present v) m.free slot present_ne_vacant
                  rep.free_vacant)
                rep.free_vacant;
          in_use_count = omega (
            arith,
            count-set is_present m.slots i (present v) (pending v) slot,
            rep.in_use_count,
          );
          allocated_count = omega (
            arith,
            count-set is_taken m.slots i (present v) (pending v) slot,
            rep.allocated_count,
          );
          free_count = rep.free_count;
          frontier_le = rep.frontier_le;
          frontier_above = marked-frontier;
        }

  -- On a slab that represents a model, marking a present item succeeds, and leaves a slab that
  -- represents the model with the item pending removal in its slot.
  pub mark_removed-hide :
      get_elem? m.slots i ≡ some (present v)
      → (c' : Cslab T) × (mark_removed i c ≡ value c') × Represents c' (hide i v m)
  mark_removed-hide slot =
      let (word, read) = word_of c m rep i slot in
      (marked slot word read, mark_runs slot word read, marked-Represents slot word read)

-- On a slab that represents a model, marking an index at which the model shows no item panics, out
-- of range included.
pub mark_removed-panic {ℓ} :
    {T : Type ℓ} (c : Cslab T) (m : Model T) (i : ℕ)
    → Represents c m
    → lookup m i ≡ none
    → mark_removed i c ≡ panic
unfolding mark_removed
mark_removed-panic c m i rep absent = elim (Option-cases (get_elem? c.bitmap (i / bits))) [
  | inl e ↦ ground arith
  | inr (word, e) ↦
      let clear : flag word i ≡ 0 = flag-bit_at c.bitmap i word e ∙ absent_clear c m rep i absent in
      ground arith
]

-- On a slab that represents a model, marking an index at which the model shows no item panics, out
-- of range included; marking one at which it shows an item succeeds, and leaves a slab that
-- represents the model with the item pending removal in its slot.
pub mark_removed-cases {ℓ} :
    {T : Type ℓ} (c : Cslab T) (m : Model T) (i : ℕ)
    → Represents c m
    → ((lookup m i ≡ none) × (mark_removed i c ≡ panic))
      ⊎ ((v : T) × (lookup m i ≡ some v)
          × (c' : Cslab T) × (mark_removed i c ≡ value c')
          × Represents c' (hide i v m))
mark_removed-cases c m i rep = elim (Option-cases (lookup m i)) [
  | inl absent ↦ inl (absent, mark_removed-panic c m i rep absent)
  | inr (v, shows) ↦
      let slot = shown_inv c m rep i (get_elem? m.slots i) v shows in
      let (c', runs, rep') = mark_removed-hide c m rep i v slot in inr (v, shows, c', runs, rep')
]
