-- ===== src/Cslab/Rcu/Passes/Examples.antt =====
-- A pass of `iter_mut` over a slab with one item and one reader: the entry that it finds is removed
-- after the pass was dropped. Instances of the theorems on passes.
use zpr_utils.Base.{ℕ, ◌≡◌, refl, Option, some, [], ◌∷◌, true, false}
use zpr_utils.Base.Exec.{value}
use zpr_utils.Base.Zeros.{trailing_zeros}
use zpr_utils.Cslab.Storage.{get_unchecked_impl}
use zpr_utils.Cslab.Iter.{iter_new, next, next_loop}
use zpr_utils.Cslab.Rcu.{RcuCslab, advance_generation, release_at, release}
use zpr_utils.Cslab.Rcu.Steps.{
  World, Reach, after, new_world, by_iter, by_entries, at_front, iterates, finds, finishes,
}
use zpr_utils.Cslab.Rcu.Entries.{
  RcuIterMut, RcuEntry, iter_mut, next_entry, yielded, drop_iter_mut, entry_remove, drop_entry,
}
use zpr_utils.Cslab.Rcu.Examples.{fits, fits-bounded, created_slab, creates, world2, reach2, gen_of}
use zpr_utils.Cslab.Rcu.Passes.{Found, reach-entry_remove, reach-take_entry_at}

abbrev pass_at : ℕ → ℕ → RcuIterMut
pass_at head remaining = record { head = head; tail = 1; remaining = remaining }

abbrev entry : RcuEntry ℕ
entry = record { idx = 0; item = 123; entry_gen = 0 }

abbrev begun : World ℕ
begun = record world2 { borrow = by_iter (pass_at 0 1) }

abbrev found_slab : RcuCslab ℕ
found_slab = record world2.slab { gens = gen_of 3 [] false ∷ [] }

abbrev found : World ℕ
found = record {
  slab = found_slab;
  readers = 2 ∷ [];
  borrow = by_iter (pass_at 1 0);
  entries = entry ∷ [];
}

abbrev over_slab : RcuCslab ℕ
over_slab = record world2.slab { gens = gen_of 2 [] true ∷ gen_of 2 [] false ∷ []; cur_gen = 1 }

abbrev over : World ℕ
over = record { slab = over_slab; readers = 2 ∷ 0 ∷ []; borrow = by_entries; entries = entry ∷ [] }

begins : iter_mut world2.slab ≡ value (pass_at 0 1)
unfolding iter_mut iter_new
begins = refl

finds_item : next_entry (pass_at 0 1) world2.slab ≡ value (pass_at 1 0, found_slab, some entry)
unfolding next_entry yielded next next_loop get_unchecked_impl trailing_zeros
finds_item = refl

ends : drop_iter_mut found_slab ≡ value over_slab
unfolding drop_iter_mut advance_generation release_at release
ends = refl

reach_begun : Reach (new_world created_slab) begun
reach_begun = after reach2 (iterates (pass_at 0 1) refl begins refl)

reach_over : Reach (new_world created_slab) over
reach_over =
    after
      (after reach_begun
        (finds at_front (pass_at 0 1) (pass_at 1 0) found_slab entry 1 refl finds_item refl refl))
      (finishes (pass_at 1 0) over_slab refl ends refl)

reach-entry_remove_example :
    (get_unchecked_impl over.slab.writer.storage 0 ≡ value 123)
    × ((s' : RcuCslab ℕ) × (entry_remove entry over.slab ≡ value s'))
    × ((s' : RcuCslab ℕ) × (drop_entry entry over.slab ≡ value s'))
reach-entry_remove_example =
    reach-entry_remove fits fits-bounded 2 created_slab creates over [] [] entry reach_over refl

reach-take_entry_at_example :
    ((it' : RcuIterMut) × (s' : RcuCslab ℕ) × (o : Option (RcuEntry ℕ)) × (next_entry
          (pass_at 0 1)
          begun.slab
        ≡ value (it', s', o))
      × Found begun s' o)
    × ((s' : RcuCslab ℕ) × (drop_iter_mut begun.slab ≡ value s'))
reach-take_entry_at_example =
    reach-take_entry_at fits fits-bounded 2 created_slab creates begun (pass_at 0 1) at_front
      reach_begun refl
