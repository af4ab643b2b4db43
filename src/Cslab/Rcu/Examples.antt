-- ===== src/Cslab/Rcu/Examples.antt =====
-- A run of an RCU slab with two readers: an item is inserted, read, removed, and finalized once the
-- older reader is dropped. Instances of the theorems on it.
use zpr_utils.Base.{
  none, ℕ, zero, suc, ◌≤◌, ◌≡◌, refl, Bool, true, false, some, List, [], ◌∷◌, ltb, if◌then◌else◌,
  get_elem?, ok, arith,
}
use zpr_utils.Base.Int.{pos, as_usize, ◌+ℤ◌}
use zpr_utils.Base.Exec.{value}
use zpr_utils.Cslab.Slab
use zpr_utils.Cslab.Storage
use zpr_utils.Cslab.Storage.{
  next_free, item, storage_with_fixed_capacity, get_impl, get_unchecked_impl, contains_key_impl,
  Allocation, no_layout, no_memory, zeroed,
}
use zpr_utils.Cslab.Slab.{Cslab, finalize_remove}
use zpr_utils.Cslab.Model.{lookup, Model}
use zpr_utils.Cslab.Refines.Create.{LayoutBounded}
use zpr_utils.Cslab.Rcu.{
  RcuCslab, RcuCslabGen, with_fixed_capacity, insert, reader, mark_removed, gen_mark_removed,
  schedule_finalization, advance_generation, drop_reader, clone_reader, release_at, release,
  finalize_all,
}
use zpr_utils.Cslab.Rcu.Steps.{
  World, free, Lends, inserts, marks, reads, drops, schedules, Reach, start, after, Holding, held,
  onward, new_world, reader_of,
}
use zpr_utils.Cslab.Rcu.Invariant.{Inv}
use zpr_utils.Cslab.Rcu.Entries.{clear, len}
use zpr_utils.Cslab.Rcu.Entries.Clear.{clear-removes}
use zpr_utils.Cslab.Rcu.Readers.{reach-Inv, reach-drop_reader, reach-get_unchecked, reach-drained}

-- Layouts below 100 entries, and memory for 50 of them.
abbrev pub fits : ℕ → Allocation
fits n = if ltb n 50 then zeroed else (if ltb n 100 then no_memory else no_layout)

pub fits-bounded : LayoutBounded fits
fits-bounded n h = ground arith

-- A slab of capacity two, with its item and flag for slot 0.
abbrev pub slab_of : ℕ → ℕ → ℕ → ℕ → List (Storage.Entry ℕ) → Cslab ℕ
slab_of first in_use frontier word table = record {
  first_free = first;
  in_use = in_use;
  allocated = frontier;
  storage = record { size = 2; frontier = frontier; table = table; bitmap = word ∷ [] };
}

abbrev empty_table : List (Storage.Entry ℕ)
empty_table = next_free (pos 0) ∷ next_free (pos 0) ∷ []

abbrev pub full_table : List (Storage.Entry ℕ)
full_table = item 123 ∷ next_free (pos 0) ∷ []

abbrev pub gen_of : ℕ → List ℕ → Bool → RcuCslabGen
gen_of strong removes next = record { strong = strong; pending_removes = removes; next_gen = next }

abbrev pub world_of : Cslab ℕ → List RcuCslabGen → ℕ → List ℕ → World ℕ
world_of c gens cur_gen readers = record {
  slab = record { capacity = 2; writer = c; gens = gens; cur_gen = cur_gen };
  readers = readers;
  borrow = free;
  entries = [];
}

abbrev pub created_slab : RcuCslab ℕ
created_slab = record {
  capacity = 2;
  writer = slab_of 0 0 0 0 empty_table;
  gens = gen_of 1 [] false ∷ [];
  cur_gen = 0;
}

abbrev pub world1 : World ℕ
world1 = world_of (slab_of 1 1 1 1 full_table) (gen_of 1 [] false ∷ []) 0 (0 ∷ [])

abbrev pub world2 : World ℕ
world2 = world_of (slab_of 1 1 1 1 full_table) (gen_of 2 [] false ∷ []) 0 (1 ∷ [])

abbrev world3 : World ℕ
world3 = world_of (slab_of 1 0 1 0 full_table) (gen_of 2 (0 ∷ []) false ∷ []) 0 (1 ∷ [])

abbrev pub world4 : World ℕ
world4 =
    world_of (slab_of 1 0 1 0 full_table) (gen_of 1 (0 ∷ []) true ∷ gen_of 3 [] false ∷ []) 1
      (1 ∷ 1 ∷ [])

abbrev world5 : World ℕ
world5 = record {
  slab = record {
    capacity = 2;
    writer = record {
      first_free = 0;
      in_use = 0;
      allocated = 0;
      storage = record {
        size = 2;
        frontier = 1;
        table = next_free (pos 0) ∷ next_free (pos 0) ∷ [];
        bitmap = 0 ∷ [];
      };
    };
    gens = gen_of 0 [] true ∷ gen_of 2 [] false ∷ [];
    cur_gen = 1;
  };
  readers = 0 ∷ 1 ∷ [];
  borrow = free;
  entries = [];
}

pub creates : with_fixed_capacity fits 2 ≡ value created_slab
unfolding with_fixed_capacity Slab.with_fixed_capacity storage_with_fixed_capacity
creates = refl

pub insert1 : insert 123 created_slab ≡ value (world1.slab, ok 0)
unfolding insert Slab.insert as_usize ◌+ℤ◌
insert1 = refl

read2 : reader world1.slab ≡ value (world2.slab, reader_of 0)
unfolding reader
read2 = refl

mark3 : mark_removed 0 world2.slab ≡ value world3.slab
unfolding mark_removed gen_mark_removed Slab.mark_removed
mark3 = refl

schedule4 : schedule_finalization world3.slab ≡ value (world4.slab, reader_of 1)
unfolding schedule_finalization advance_generation release_at release reader
schedule4 = refl

drop5 : drop_reader (reader_of 0) world4.slab ≡ value world5.slab
unfolding drop_reader release_at release finalize_all finalize_remove
drop5 = refl

-- Nothing is borrowed.
pub unlent : {w w' : World ℕ} → w'.borrow ≡ w.borrow → w'.entries ≡ w.entries → Lends w w'
unlent b e = record { borrow_same = b; entries_same = e }

pub reach2 : Reach (new_world created_slab) world2
reach2 =
    after (after start (inserts 123 (ok 0) refl insert1 refl (unlent refl refl)))
      (reads 0 0 refl read2 refl refl (unlent refl refl))

reach4 : Reach (new_world created_slab) world4
reach4 =
    after (after reach2 (marks 0 refl mark3 refl (unlent refl refl)))
      (schedules 1 refl schedule4 refl (unlent refl refl))

reach5 : Reach (new_world created_slab) world5
reach5 = after reach4 (drops 0 0 refl (omega arith) drop5 refl (unlent refl refl))

pub holding4 : Holding 0 world2 world4
holding4 =
    onward 0 (onward 0 (held 0 refl) (marks 0 refl mark3 refl (unlent refl refl)) refl)
      (schedules 1 refl schedule4 refl (unlent refl refl)) refl

seen2 : get_impl world2.slab.writer.storage 0 ≡ value (some 123)
unfolding get_impl contains_key_impl get_unchecked_impl
seen2 = refl

unread5 : (k : ℕ) → k ≤ 0 → get_elem? world5.readers k ≡ some 0
unread5 zero le = refl
unread5 (suc k) le = absurd (omega arith)

reach-Inv_example : (m : Model ℕ) × Inv world4.slab m world4.readers
reach-Inv_example = reach-Inv fits fits-bounded 2 created_slab creates world4 reach4

reach-drop_reader_example :
    ((s' : RcuCslab ℕ) × (drop_reader (reader_of 0) world4.slab ≡ value s'))
    × ((s' : RcuCslab ℕ) × (clone_reader (reader_of 0) world4.slab ≡ value (s', reader_of 0)))
    × ((s' : RcuCslab ℕ) × (schedule_finalization world4.slab ≡ value (s', reader_of 2)))
reach-drop_reader_example =
    reach-drop_reader fits fits-bounded 2 created_slab creates world4 0 0 reach4 refl

reach-get_unchecked_example : get_unchecked_impl world4.slab.writer.storage 0 ≡ value 123
reach-get_unchecked_example =
    reach-get_unchecked fits fits-bounded 2 created_slab creates world2 world4 0 0 123 reach2 seen2
      holding4

reach-drained_example :
    (g : RcuCslabGen) × (get_elem? world5.slab.gens 0 ≡ some g)
    × (g.strong ≡ 0)
    × (g.pending_removes ≡ [])
reach-drained_example =
    reach-drained fits fits-bounded 2 created_slab creates world5 0 reach5 (omega arith) unread5

inv2 : (m : Model ℕ) × Inv world2.slab m world2.readers
inv2 = reach-Inv fits fits-bounded 2 created_slab creates world2 reach2

clear-removes_example :
    (s' : RcuCslab ℕ) × (m' : Model ℕ) × (clear world2.slab ≡ value (s', reader_of 1))
    × Inv s' m' (1 ∷ 1 ∷ [])
    × ((j : ℕ) → lookup m' j ≡ none)
    × (len s' ≡ 0)
clear-removes_example = clear-removes world2.slab inv2.0 world2.readers inv2.1
