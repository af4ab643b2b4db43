-- ===== src/Cslab/Refines/Insert.antt =====
-- `with_fixed_capacity` and `insert` implement the empty model and `put`.
use zpr_utils.Base.{
  All-set, All-get_elem?, ◌^◌, ℕ, ◌+◌, ◌/◌, ◌<◌, ◌≡◌, inl, inr, refl, sym, ap, ◌∙◌, true, some,
  List, [], ◌∷◌, leb, if◌then◌else◌, length, length-set, get_elem?, set, ok, err, get_elem?-of_lt,
  lt_of_get_elem?, get_elem?-set_ne, get_elem?-set_self, All, arith,
}
use zpr_utils.Base.Int.{pos, ◌+ℤ◌, as_usize}
use zpr_utils.Base.Exec.{Exec, value}
use zpr_utils.Cslab.Storage.{bits, item}
use zpr_utils.Cslab.Slab.{Cslab, Fallible, insert, with_flag}
use zpr_utils.Cslab.Bitmap.{with_flag-lt, dec_eq, flag-bit_at, bit_at-with_flag, word_in_range}
use zpr_utils.Cslab.Model.{vacant, present, Model, put, put_first, is_present, is_taken}
use zpr_utils.Cslab.Represents.{Represents, Chain, Distinct, offset_of-eq-some}
use zpr_utils.Cslab.Refines.Chains.{Chain-set, vacant-set}
use zpr_utils.Cslab.Refines.Slots.{Holds-update, flag_here, flag_there}
use zpr_utils.Cslab.Refines.Counts.{count-set, count-le, is_present-le, is_taken-le}

module _ {ℓ} {T : Type ℓ} (v : T) (c : Cslab T) (m : Model T) (rep : Represents c m) where
  -- The run succeeds with the model's answer, and leaves the model's state.
  abbrev pub Refined : Model T × Fallible ℕ → Exec (Cslab T × Fallible ℕ) → Type ℓ
  Refined next run = (c' : Cslab T) × (run ≡ value (c', next.1)) × Represents c' next.0

  insert_full : Chain c.table c.size c.first_free [] → insert v c ≡ value (c, err tt)
  unfolding insert
  insert_full chain = let full : leb c.size c.first_free ≡ true = ground arith in rw full

  module _ (i : ℕ) (rest : List ℕ) (e : m.free ≡ i ∷ rest)
      (chain : Chain c.table c.size c.first_free (i ∷ rest)) (distinct : Distinct (i ∷ rest))
      (all : All (λ j. get_elem? m.slots j ≡ some vacant) (i ∷ rest)) (word : ℕ)
      (read : get_elem? c.bitmap (i / bits) ≡ some word) where
    abbrev after : Cslab T
    after = record {
      first_free = as_usize (pos (i + 1) +ℤ chain.0);
      in_use = c.in_use + 1;
      allocated = c.allocated + 1;
      storage = record {
        size = c.size;
        frontier = if leb c.frontier i then i + 1 else c.frontier;
        table = set c.table i (item v);
        bitmap = set c.bitmap (i / bits) (with_flag word i);
      };
    }

    abbrev model_after : Model T
    model_after = record { slots = set m.slots i (present v); free = rest }

    insert_runs : insert v c ≡ value (after, ok i)
    unfolding insert
    insert_runs =
        let entry = offset_of-eq-some (get_elem? c.table i) chain.3 in
        let small = count-le is_present m.slots is_present-le in
        let small' = count-le is_taken m.slots is_taken-le in
        let holds = rep.holds i vacant all.0 in
        ground (
          arith,
          flag-bit_at c.bitmap i word read,
          rep.in_use_count,
          rep.allocated_count,
          rep.slots_len,
          rep.addressable,
        )

    abbrev bitmap' : List ℕ
    bitmap' = set c.bitmap (i / bits) (with_flag word i)

    frontier_above :
        (j : ℕ) (u : T) → get_elem? model_after.slots j ≡ some (present u) → j < after.frontier
    frontier_above j u found = elim (dec_eq i j) [
      | inl (same, _) ↦ ground arith
      | inr (other, _) ↦
          let old =
            rep.frontier_above j u (sym (get_elem?-set_ne m.slots i j (present v) other) ∙ found) in
          ground arith
    ]

    after-Represents : Represents after model_after
    after-Represents =
        let stored = bit_at-with_flag c.bitmap i word read in
        record {
          table_len = length-set c.table i (item v) ∙ rep.table_len;
          words_len = length-set c.bitmap (i / bits) (with_flag word i) ∙ rep.words_len;
          word_width =
              All-set (λ w. w < 2 ^ 64) c.bitmap (i / bits) (with_flag word i) rep.word_width
                (with_flag-lt word i
                  (All-get_elem? (λ w. w < 2 ^ 64) c.bitmap (i / bits) rep.word_width read));
          slots_len = length-set m.slots i (present v) ∙ rep.slots_len;
          addressable = rep.addressable;
          holds =
              Holds-update m.slots c.table after.table c.bitmap after.bitmap i (present v)
                (
                  get_elem?-set_self c.table i (item v) (omega (arith, rep.table_len)),
                  flag_here c.bitmap bitmap' i 1 stored,
                )
                (λ j ne. get_elem?-set_ne c.table i j (item v) ne)
                (flag_there c.bitmap bitmap' i 1 stored) (lt_of_get_elem? m.slots i all.0)
                rep.holds;
          beyond = λ j high.
              flag_there c.bitmap bitmap' i 1 stored j (λ same. absurd (omega (arith, chain.2)))
              ∙ rep.beyond j high;
          chain = Chain-set c.table c.size after.first_free i (item v) rest distinct.0 chain.4;
          distinct = distinct.1;
          free_vacant = vacant-set m.slots i (present v) rest distinct.0 all.1;
          in_use_count =
              omega
                (arith, count-set is_present m.slots i vacant (present v) all.0, rep.in_use_count);
          allocated_count =
              omega
                (arith, count-set is_taken m.slots i vacant (present v) all.0, rep.allocated_count);
          free_count = omega (arith, ap length e, rep.free_count);
          frontier_le = ground (arith, rep.frontier_le);
          frontier_above = frontier_above;
        }

  by_free :
      (free : List ℕ)
      → m.free ≡ free
      → Chain c.table c.size c.first_free free
      → Distinct free
      → All (λ j. get_elem? m.slots j ≡ some vacant) free
      → Refined (put_first v m free) (insert v c)
  by_free [] e chain distinct all = (c, insert_full chain, rep)
  by_free (i ∷ rest) e chain distinct all =
      let (word, read) =
        get_elem?-of_lt c.bitmap (i / bits) (rw rep.words_len (word_in_range c.size i chain.2)) in
      (
        after i rest e chain distinct all word read,
        insert_runs i rest e chain distinct all word read,
        after-Represents i rest e chain distinct all word read,
      )

  -- On a slab that represents a model, `insert` runs without panic or undefined behaviour, answers
  -- as the model does, the error on a full slab included, and leaves the model's next state.
  pub insert-put :
      (c' : Cslab T) × (insert v c ≡ value (c', (put v m).1)) × Represents c' (put v m).0
  insert-put = by_free m.free refl rep.chain rep.distinct rep.free_vacant
