-- ===== src/Cslab/Rcu/Finalizes.antt =====
-- Finalizing a list of pending removals, against the model.
use zpr_utils.Base.{
  ℕ, ◌≡◌, ◌≢◌, refl, ◌∙◌, some, List, [], ◌∷◌, map, get_elem?, get_elem?-set_ne, All,
}
use zpr_utils.Base.Exec.{value}
use zpr_utils.Cslab.Slab.{Cslab}
use zpr_utils.Cslab.Model.{vacant, pending, Model, drop_item}
use zpr_utils.Cslab.Represents.{Represents, Distinct}
use zpr_utils.Cslab.Refines.Finalize.{finalize_remove-drop_item}
use zpr_utils.Cslab.Rcu.{finalize_all}

-- The indexes and the items of a list of removals.
abbrev pub indexes {ℓ} : {T : Type ℓ} → List (ℕ × T) → List ℕ
indexes removals = map (λ r. r.0) removals

abbrev pub items {ℓ} : {T : Type ℓ} → List (ℕ × T) → List T
items removals = map (λ r. r.1) removals

module _ {ℓ} {T : Type ℓ} where
  abbrev pub drop_all : List ℕ → Model T → Model T
  drop_all [] m = m
  drop_all (i ∷ is) m = drop_all is (drop_item i m)

  -- Each of the removals is pending.
  abbrev pub ArePending : Model T → List (ℕ × T) → Type ℓ
  ArePending m removals = All (λ r. get_elem? m.slots r.0 ≡ some (pending r.1)) removals

  still_pending :
      (m : Model T) (i : ℕ) (removals : List (ℕ × T))
      → All (λ j. i ≢ j) (indexes removals)
      → ArePending m removals
      → ArePending (drop_item i m) removals
  still_pending m i [] apart all = tt
  still_pending m i (r ∷ rs) apart all =
      (get_elem?-set_ne m.slots i r.0 vacant apart.0 ∙ all.0, still_pending m i rs apart.1 all.1)

  -- On a slab that represents a model, finalizing different removals that are all pending
  -- succeeds: it returns their items in this order, and leaves a slab that represents the model
  -- with their slots vacant, the last one first in line for reuse.
  pub finalize_all-drop_all :
      (removals : List (ℕ × T)) (c : Cslab T) (m : Model T)
      → Represents c m
      → ArePending m removals
      → Distinct (indexes removals)
      → (c' : Cslab T) × (finalize_all (indexes removals) c ≡ value (c', items removals))
        × Represents c' (drop_all (indexes removals) m)
  unfolding finalize_all
  finalize_all-drop_all [] c m rep all distinct = (c, refl, rep)
  finalize_all-drop_all (r ∷ rs) c m rep all distinct =
      let (c1, runs, rep1) = finalize_remove-drop_item c m rep r.0 r.1 all.0 in
      let (c2, runs', rep2) =
        finalize_all-drop_all rs c1 (drop_item r.0 m) rep1 (still_pending m r.0 rs distinct.0 all.1)
          distinct.1 in
      (c2, rw (runs, runs') refl, rep2)
