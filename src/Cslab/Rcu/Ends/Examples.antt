-- ===== src/Cslab/Rcu/Ends/Examples.antt =====
-- A slab that is dropped while the removal of its one item is pending.
use zpr_utils.Base.{ℕ, zero, suc, ◌≡◌, refl, [], ◌∷◌, ok, false}
use zpr_utils.Base.Exec.{value}
use zpr_utils.Cslab.Slab
use zpr_utils.Cslab.Storage.{get_impl}
use zpr_utils.Cslab.Model.{Model}
use zpr_utils.Cslab.Represents.{Represents}
use zpr_utils.Cslab.Iter.Drops.{storage_drop}
use zpr_utils.Cslab.Rcu.{RcuCslab, mark_removed, gen_mark_removed}
use zpr_utils.Cslab.Rcu.Steps.{World, Reach, start, after, inserts, marks, new_world}
use zpr_utils.Cslab.Rcu.Examples.{
  fits, fits-bounded, created_slab, creates, world1, insert1, world_of, slab_of, gen_of, full_table,
  unlent,
}
use zpr_utils.Cslab.Rcu.Ends.{rcu_drop, held, Unread, reach-rcu_drop}

abbrev marked : World ℕ
marked = world_of (slab_of 1 0 1 0 full_table) (gen_of 1 (0 ∷ []) false ∷ []) 0 (0 ∷ [])

marks_item : mark_removed 0 world1.slab ≡ value marked.slab
unfolding mark_removed gen_mark_removed Slab.mark_removed
marks_item = refl

reach_marked : Reach (new_world created_slab) marked
reach_marked =
    after (after start (inserts 123 (ok 0) refl insert1 refl (unlent refl refl)))
      (marks 0 refl marks_item refl (unlent refl refl))

nobody : Unread marked.readers
nobody zero r e = cc
nobody (suc k) r e = cc

reach-rcu_drop_example :
    (s' : RcuCslab ℕ) × (m' : Model ℕ) × (rcu_drop marked.slab ≡ value s')
    × Represents s'.writer m'
    × ((i : ℕ) → get_impl s'.writer.storage i ≡ get_impl marked.slab.writer.storage i)
    × (storage_drop s'.writer.storage ≡ value (held m'.slots))
reach-rcu_drop_example =
    reach-rcu_drop fits fits-bounded 2 created_slab creates marked reach_marked nobody
