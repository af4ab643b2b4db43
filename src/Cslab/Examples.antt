-- ===== src/Cslab/Examples.antt =====
-- The slab of the crate's removal test, and instances of the theorems on it.
use zpr_utils.Base.{
  ℕ, ◌≤◌, ◌≡◌, ◌⊎◌, refl, subst, ◌^◌, none, some, [], ◌∷◌, ◌+◌, ◌<◌, length, ltb, if◌then◌else◌,
  ltb→lt, ok, arith,
}
use zpr_utils.Base.Int.{pos, as_usize, ◌+ℤ◌}
use zpr_utils.Base.Exec.{Exec, value, panic, undefined}
use zpr_utils.Cslab.Storage.{next_free, item, get_impl, Allocation, no_layout, no_memory, zeroed}
use zpr_utils.Cslab.Slab.{
  Cslab, len, insert, mark_removed, finalize_remove, vacant_key, vacant_entry, entry_insert,
  entry_key, with_fixed_capacity,
}
use zpr_utils.Cslab.Model.{lookup, Model, initial, put, hide, drop_item}
use zpr_utils.Cslab.Represents.{Represents}
use zpr_utils.Cslab.Refines.Create.{fresh, fresh-Represents, with_fixed_capacity-initial}
use zpr_utils.Cslab.Refines.Insert.{insert-put}
use zpr_utils.Cslab.Refines.Mark.{mark_removed-hide, mark_removed-cases}
use zpr_utils.Cslab.Refines.Finalize.{finalize_remove-drop_item}
use zpr_utils.Cslab.Refines.Lookup.{get_impl-lookup}
use zpr_utils.Cslab.Iter.{ExclIter, next, next_back, iter, count}
use zpr_utils.Cslab.Iter.Seen.{seen}
use zpr_utils.Cslab.Iter.Forward.{between, next-seen}
use zpr_utils.Cslab.Iter.Backward.{next_back-seen}
use zpr_utils.Cslab.Iter.Drops.{storage_drop, storage_drop-presents}
use zpr_utils.Cslab.Iter.Collect.{collect, collect-iter}
use zpr_utils.Cslab.Refines.Vacant.{entry_insert-put}

-- A run of an operation, and the refinement theorem about it, give the state that it leaves.
left_by {ℓ κ} :
    {S : Type ℓ} {A : Type κ} {P : S → Type ℓ} {run : Exec (S × A)} {a b : A} {s : S}
    → (s' : S) × (run ≡ value (s', a)) × P s'
    → run ≡ value (s, b)
    → P s
left_by {P = P} {s = s} (s', e, p) e' = let same : s' ≡ s = cc in subst P same p

left {ℓ} :
    {S : Type ℓ} {P : S → Type ℓ} {run : Exec S} {s : S}
    → (s' : S) × (run ≡ value s') × P s'
    → run ≡ value s
    → P s
left {P = P} {s = s} (s', e, p) e' = let same : s' ≡ s = cc in subst P same p

abbrev slab0 : Cslab ℕ
slab0 = fresh ℕ 4 (ltb→lt 4 (2 ^ 63) refl)

abbrev slab1 : Cslab ℕ
slab1 = record {
  first_free = 1;
  in_use = 1;
  allocated = 1;
  storage = record {
    size = 4;
    frontier = 1;
    table = item 123 ∷ next_free (pos 0) ∷ next_free (pos 0) ∷ next_free (pos 0) ∷ [];
    bitmap = 1 ∷ [];
  };
}

abbrev slab2 : Cslab ℕ
slab2 = record {
  first_free = 2;
  in_use = 2;
  allocated = 2;
  storage = record {
    size = 4;
    frontier = 2;
    table = item 123 ∷ item 456 ∷ next_free (pos 0) ∷ next_free (pos 0) ∷ [];
    bitmap = 3 ∷ [];
  };
}

-- With the first item marked for removal, and then removed.
abbrev slab3 : Cslab ℕ
slab3 = record {
  first_free = 2;
  in_use = 1;
  allocated = 2;
  storage = record {
    size = 4;
    frontier = 2;
    table = item 123 ∷ item 456 ∷ next_free (pos 0) ∷ next_free (pos 0) ∷ [];
    bitmap = 2 ∷ [];
  };
}

abbrev slab4 : Cslab ℕ
slab4 = record {
  first_free = 0;
  in_use = 1;
  allocated = 1;
  storage = record {
    size = 4;
    frontier = 2;
    table = next_free (pos 1) ∷ item 456 ∷ next_free (pos 0) ∷ next_free (pos 0) ∷ [];
    bitmap = 2 ∷ [];
  };
}

abbrev model1 : Model ℕ
model1 = (put 123 (initial 4)).0

abbrev model2 : Model ℕ
model2 = (put 456 model1).0

abbrev model3 : Model ℕ
model3 = hide 0 123 model2

run1 : insert 123 slab0 ≡ value (slab1, ok 0)
unfolding insert as_usize ◌+ℤ◌
run1 = refl

run2 : insert 456 slab1 ≡ value (slab2, ok 1)
unfolding insert as_usize ◌+ℤ◌
run2 = refl

run3 : mark_removed 0 slab2 ≡ value slab3
unfolding mark_removed
run3 = refl

run4 : finalize_remove 0 slab3 ≡ value (slab4, 123)
unfolding finalize_remove
run4 = refl

-- The removed item's slot is the next to be used.
reused : vacant_key slab4 ≡ ok 0
unfolding vacant_key
reused = refl

slab0-Represents : Represents slab0 (initial 4)
slab0-Represents = fresh-Represents ℕ 4 (ltb→lt 4 (2 ^ 63) refl)

slab1-Represents : Represents slab1 model1
slab1-Represents = left_by (insert-put 123 slab0 (initial 4) slab0-Represents) run1

slab2-Represents : Represents slab2 model2
slab2-Represents = left_by (insert-put 456 slab1 model1 slab1-Represents) run2

slab3-Represents : Represents slab3 model3
slab3-Represents = left (mark_removed-hide slab2 model2 slab2-Represents 0 123 refl) run3

-- Layouts below 100 entries, and memory for 50 of them.
abbrev up_to : ℕ → Allocation
up_to n = if ltb n 50 then zeroed else (if ltb n 100 then no_memory else no_layout)

with_fixed_capacity-initial_example :
    (((◌≡◌ {A = ℕ} 4 0) ⊎ (up_to 4 ≡ no_layout)) × (with_fixed_capacity {T = ℕ} up_to 4 ≡ panic))
    ⊎ (((1 ≤ 4) × (up_to 4 ≡ no_memory) × (with_fixed_capacity {T = ℕ} up_to 4 ≡ undefined))
        ⊎ ((c : Cslab ℕ) × (with_fixed_capacity up_to 4 ≡ value c)
            × Represents c (initial 4)
            × (up_to 4 ≡ zeroed)))
with_fixed_capacity-initial_example = with_fixed_capacity-initial ℕ up_to 4 (λ n h. ground arith)

insert-put_example : (c' : Cslab ℕ) × (insert 456 slab1 ≡ value (c', ok 1)) × Represents c' model2
insert-put_example = insert-put 456 slab1 model1 slab1-Represents

mark_removed-cases_example :
    ((lookup model2 2 ≡ none) × (mark_removed 2 slab2 ≡ panic))
    ⊎ ((v : ℕ) × (lookup model2 2 ≡ some v)
        × (c' : Cslab ℕ) × (mark_removed 2 slab2 ≡ value c')
        × Represents c' (hide 2 v model2))
mark_removed-cases_example = mark_removed-cases slab2 model2 2 slab2-Represents

finalize_remove-drop_item_example :
    (c' : Cslab ℕ) × (finalize_remove 0 slab3 ≡ value (c', 123))
    × Represents c' (drop_item 0 model3)
finalize_remove-drop_item_example =
    finalize_remove-drop_item slab3 model3 slab3-Represents 0 123 refl

get_impl-lookup_example : get_impl slab3.storage 0 ≡ value none
get_impl-lookup_example = get_impl-lookup slab3 model3 slab3-Represents 0

entry_insert-put_example :
    (c' : Cslab ℕ) × (entry_insert 789 (record { slab = slab2 })
      ≡ value (c', entry_key (record { slab = slab2 })))
    × Represents c' (put 789 model2).0
unfolding vacant_entry
entry_insert-put_example =
    entry_insert-put 789 slab2 model2 slab2-Represents (record { slab = slab2 }) refl

-- The one item of the slab that is shown, from both ends.
next-seen_example :
    (n' : ℕ) × (h' : ℕ) × (h' + n' ≡ 2)
    × (next (between slab3 0 2) ≡ value (between slab3 h' 2, some (1, 456)))
    × (seen model3 n' h' ≡ [])
    × (1 < h')
unfolding seen
next-seen_example = next-seen slab3 model3 slab3-Represents 2 (omega arith) 2 0 refl

next_back-seen_example :
    (n' : ℕ) × (t' : ℕ) × (0 + n' ≡ t')
    × (next_back (between slab3 0 2) ≡ value (between slab3 0 t', some (1, 456)))
    × (seen model3 n' 0 ≡ [])
    × (t' ≤ 1)
    × (n' ≤ 2)
unfolding seen
next_back-seen_example = next_back-seen slab3 model3 slab3-Represents 0 2 2 refl (omega arith)

collect-iter_example :
    (it : ExclIter ℕ) × (iter slab3 ≡ value it)
    × (collect 5 it.iter ≡ value (seen model3 4 0))
    × (length (seen model3 4 0) ≡ len slab3)
    × (count it ≡ len slab3)
collect-iter_example = collect-iter slab3 model3 slab3-Represents

-- Slot 0 is pending, and slot 1 present.
drops_present : storage_drop slab3.storage ≡ value (456 ∷ [])
drops_present = storage_drop-presents slab3 model3 slab3-Represents
