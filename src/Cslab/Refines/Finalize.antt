-- ===== src/Cslab/Refines/Finalize.antt =====
-- `finalize_remove` implements `drop_item`; what it does where no removal is pending.
use zpr_utils.Base.{
  ℕ, ◌+◌, ◌-◌, ◌/◌, ◌<◌, ◌≡◌, ◌≢◌, inl, inr, refl, sym, ap, ◌∙◌, some, length, length-set,
  get_elem?, set, lt_of_get_elem?, get_elem?-set_ne, get_elem?-set_self, arith,
}
use zpr_utils.Base.Int.{sub_ℕ, as_usize-offset}
use zpr_utils.Base.Exec.{value, panic, undefined}
use zpr_utils.Cslab.Storage.{bits, next_free}
use zpr_utils.Cslab.Slab.{Cslab, finalize_remove}
use zpr_utils.Cslab.Bitmap.{dec_eq, flag-bit_at}
use zpr_utils.Cslab.Model.{vacant, present, pending, Model, drop_item, is_present, is_taken}
use zpr_utils.Cslab.Represents.{Represents, offset_of}
use zpr_utils.Cslab.Refines.Chains.{Chain-le, Apart-of_vacant, Chain-set, vacant-set}
use zpr_utils.Cslab.Refines.Slots.{word_of, Holds-update}
use zpr_utils.Cslab.Refines.Counts.{count-set}

module _ {ℓ} {T : Type ℓ} (c : Cslab T) (m : Model T) (rep : Represents c m) (i : ℕ) (v : T) where
  pending_ne_vacant : pending v ≢ vacant
  pending_ne_vacant = λ e. cc

  module _ (slot : get_elem? m.slots i ≡ some (pending v)) (word : ℕ)
      (read : get_elem? c.bitmap (i / bits) ≡ some word) where
    abbrev freed : Cslab T
    freed = record {
      first_free = i;
      in_use = c.in_use;
      allocated = c.allocated - 1;
      storage = record {
        size = c.size;
        frontier = c.frontier;
        table = set c.table i (next_free (sub_ℕ c.first_free (i + 1)));
        bitmap = c.bitmap;
      };
    }

    finalize_runs : finalize_remove i c ≡ value (freed, v)
    unfolding finalize_remove
    finalize_runs =
        let holds = rep.holds i (pending v) slot in
        ground (
          arith,
          flag-bit_at c.bitmap i word read,
          rep.allocated_count,
          count-set is_taken m.slots i (pending v) vacant slot,
        )

    freed-frontier :
        (j : ℕ) (u : T) → get_elem? (drop_item i m).slots j ≡ some (present u) → j < c.frontier
    freed-frontier j u found = elim (dec_eq i j) [
      | inl (same, _) ↦
          let here =
            sym (get_elem?-set_self m.slots i vacant (lt_of_get_elem? m.slots i slot))
            ∙ ap (get_elem? (drop_item i m).slots) same
            ∙ found in
          cc
      | inr (other, _) ↦
          rep.frontier_above j u (sym (get_elem?-set_ne m.slots i j vacant other) ∙ found)
    ]

    freed-Represents : Represents freed (drop_item i m)
    freed-Represents =
        let low = lt_of_get_elem? m.slots i slot in
        let apart =
          Apart-of_vacant m.slots i (pending v) m.free slot pending_ne_vacant rep.free_vacant in
        let offset = sub_ℕ c.first_free (i + 1) in
        let head = Chain-le c.table c.size c.first_free m.free rep.chain in
        let room : i < length c.table = omega (arith, rep.slots_len, rep.table_len) in
        record {
          table_len = length-set c.table i (next_free offset) ∙ rep.table_len;
          words_len = rep.words_len;
          word_width = rep.word_width;
          slots_len = length-set m.slots i vacant ∙ rep.slots_len;
          addressable = rep.addressable;
          holds =
              Holds-update m.slots c.table freed.table c.bitmap c.bitmap i vacant
                (
                  (offset, get_elem?-set_self c.table i (next_free offset) room),
                  (rep.holds i (pending v) slot).1,
                )
                (λ j ne. get_elem?-set_ne c.table i j (next_free offset) ne) (λ j ne. refl) low
                rep.holds;
          beyond = rep.beyond;
          chain = (
            offset,
            refl,
            omega (arith, rep.slots_len),
            ap offset_of (get_elem?-set_self c.table i (next_free offset) room),
            rw (as_usize-offset c.first_free (i + 1) (omega (arith, head, rep.addressable)))
                (Chain-set c.table c.size c.first_free i (next_free offset) m.free apart rep.chain),
          );
          distinct = (apart, rep.distinct);
          free_vacant = (
            get_elem?-set_self m.slots i vacant low,
            vacant-set m.slots i vacant m.free apart rep.free_vacant,
          );
          in_use_count =
              omega
                (arith, count-set is_present m.slots i (pending v) vacant slot, rep.in_use_count);
          allocated_count =
              omega
                (arith, count-set is_taken m.slots i (pending v) vacant slot, rep.allocated_count);
          free_count = omega (
            arith,
            count-set is_taken m.slots i (pending v) vacant slot,
            rep.allocated_count,
            rep.free_count,
          );
          frontier_le = rep.frontier_le;
          frontier_above = freed-frontier;
        }

  -- On a slab that represents a model, finalizing a pending removal succeeds, returns the item,
  -- and leaves a slab that represents the model with the slot vacant and first in line for reuse.
  pub finalize_remove-drop_item :
      get_elem? m.slots i ≡ some (pending v)
      → (c' : Cslab T) × (finalize_remove i c ≡ value (c', v)) × Represents c' (drop_item i m)
  finalize_remove-drop_item slot =
      let (word, read) = word_of c m rep i slot in
      (freed slot word read, finalize_runs slot word read, freed-Represents slot word read)

  -- On a slab that represents a model, finalizing a present item panics.
  pub finalize_remove-panic : get_elem? m.slots i ≡ some (present v) → finalize_remove i c ≡ panic
  unfolding finalize_remove
  finalize_remove-panic slot =
      let (word, read) = word_of c m rep i slot in
      let holds = rep.holds i (present v) slot in ground (arith, flag-bit_at c.bitmap i word read)

-- On a slab that represents a model, finalizing a vacant slot is undefined behaviour, which the
-- contract of the method excludes.
pub finalize_remove-undefined {ℓ} :
    {T : Type ℓ} (c : Cslab T) (m : Model T) (i : ℕ)
    → Represents c m
    → get_elem? m.slots i ≡ some vacant
    → finalize_remove i c ≡ undefined
unfolding finalize_remove
finalize_remove-undefined c m i rep slot =
    let (word, read) = word_of c m rep i slot in
    let holds = rep.holds i vacant slot in ground (arith, flag-bit_at c.bitmap i word read)
