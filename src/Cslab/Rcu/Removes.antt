-- ===== src/Cslab/Rcu/Removes.antt =====
-- A removal from an RCU slab, with and without a reader of the generation that it happens in.
use zpr_utils.Base.{
  ℕ, ◌≡◌, refl, Bool, true, false, some, List, [], ◌∷◌, ◌+◌, ◌-◌, ◌==◌, get_elem?, arith,
}
use zpr_utils.Base.Exec.{value}
use zpr_utils.Cslab.Slab.{Cslab}
use zpr_utils.Cslab.Model.{present, pending, Model, hide, drop_item}
use zpr_utils.Cslab.Represents.{Represents}
use zpr_utils.Cslab.Refines.Mark.{mark_removed-hide}
use zpr_utils.Cslab.Rcu.Finalizes.{finalize_all-drop_all}
use zpr_utils.Base.{get_elem?-set_self, lt_of_get_elem?}
use zpr_utils.Cslab.Rcu.{
  RcuCslab, RcuCslabGen, RcuCslabReader, new_gen, release, release_at, reader, gen_mark_removed,
  mark_removed, advance_generation, schedule_finalization, remove, drop_reader,
}

-- A slab with one generation, to which `strong` references exist: the slab's own, and its readers'.
abbrev pub alone {ℓ} : {T : Type ℓ} → ℕ → Cslab T → ℕ → RcuCslab T
alone capacity c strong = record {
  capacity = capacity;
  writer = c;
  gens = record new_gen { strong = strong } ∷ [];
  cur_gen = 0;
}

abbrev pub old_gen : ℕ → List ℕ → RcuCslabGen
old_gen strong removes = record { strong = strong; pending_removes = removes; next_gen = true }

-- The slab after a removal, when an older generation `old` comes before the current one.
abbrev pub advanced {ℓ} : {T : Type ℓ} → ℕ → Cslab T → RcuCslabGen → ℕ → RcuCslab T
advanced capacity c old strong = record {
  capacity = capacity;
  writer = c;
  gens = old ∷ record new_gen { strong = strong } ∷ [];
  cur_gen = 1;
}

abbrev pub reader_of : ℕ → RcuCslabReader
reader_of n = record { reader_gen = n }

-- A reference that is not the last is given up without further effect.
release-more {ℓ} :
    {T : Type ℓ} (n : ℕ) (removes : List ℕ) (next : Bool) (gens : List RcuCslabGen) (c : Cslab T)
    → release (record { strong = n + 2; pending_removes = removes; next_gen = next } ∷ gens) c
      ≡ value (record { strong = n + 1; pending_removes = removes; next_gen = next } ∷ gens, c)
unfolding release
release-more n removes next gens c =
    let more : (n + 2 == 1) ≡ false = ground arith in
    let fewer : n + 2 - 1 ≡ n + 1 = omega arith in rw (release, more, fewer) refl

module _ {ℓ} {T : Type ℓ} (capacity : ℕ) (c : Cslab T) (m : Model T) (rep : Represents c m) (i : ℕ)
    (v : T) (slot : get_elem? m.slots i ≡ some (present v)) where
  hidden_slot : get_elem? (hide i v m).slots i ≡ some (pending v)
  hidden_slot = get_elem?-set_self m.slots i (pending v) (lt_of_get_elem? m.slots i slot)

  -- With one generation and no readers of it, the removal of an item present in the model is
  -- finalized at once: its slot is vacant and first in line for reuse, and the reader that is
  -- returned belongs to a new generation.
  pub remove-alone :
      (c' : Cslab T) × (remove i (alone capacity c 1)
        ≡ value (advanced capacity c' (old_gen 0 []) 2, reader_of 1))
      × Represents c' (drop_item i (hide i v m))
  unfolding remove mark_removed gen_mark_removed schedule_finalization advance_generation reader
      release_at release
  remove-alone =
      let (c1, runs, rep1) = mark_removed-hide c m rep i v slot in
      let (c2, runs', rep2) =
        finalize_all-drop_all ((i, v) ∷ []) c1 (hide i v m) rep1 (hidden_slot, tt) (tt, tt) in
      (c2, rw (runs, runs') refl, rep2)

  -- With one generation and at least one reader of it, the removal of an item present in the model
  -- leaves the item in its slot, pending, recorded with that generation.
  pub remove-deferred :
      (readers : ℕ)
      → (c' : Cslab T) × (remove i (alone capacity c (readers + 2))
          ≡ value (advanced capacity c' (old_gen (readers + 1) (i ∷ [])) 3, reader_of 1))
        × Represents c' (hide i v m)
  unfolding remove mark_removed gen_mark_removed schedule_finalization advance_generation reader
      release_at release
  remove-deferred readers =
      let (c1, runs, rep1) = mark_removed-hide c m rep i v slot in
      let less = release-more readers (i ∷ []) true (record new_gen { strong = 2 } ∷ []) c1 in
      (c1, rw (runs, schedule_finalization, less) refl, rep1)

  -- After such a removal, which left a slab that represents the model with the item pending: the
  -- drop of a reader of the old generation changes no slot while others are left, and the drop of
  -- the last one finalizes the removal.
  pub drop_reader-deferred :
      (n : ℕ) (c' : Cslab T)
      → Represents c' (hide i v m)
      → (drop_reader (reader_of 0) (advanced capacity c' (old_gen (n + 2) (i ∷ [])) 3)
          ≡ value (advanced capacity c' (old_gen (n + 1) (i ∷ [])) 3))
        × ((c'' : Cslab T) × (drop_reader
                (reader_of 0)
                (advanced capacity c' (old_gen 1 (i ∷ [])) 3)
              ≡ value (advanced capacity c'' (old_gen 0 []) 2))
            × Represents c'' (drop_item i (hide i v m)))
  unfolding drop_reader release_at release
  drop_reader-deferred n c' rep' =
      let less = release-more n (i ∷ []) true (record new_gen { strong = 3 } ∷ []) c' in
      let (c2, runs, rep2) =
        finalize_all-drop_all ((i, v) ∷ []) c' (hide i v m) rep' (hidden_slot, tt) (tt, tt) in
      (rw (drop_reader, less) refl, (c2, rw runs refl, rep2))
