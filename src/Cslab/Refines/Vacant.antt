-- ===== src/Cslab/Refines/Vacant.antt =====
-- `vacant_key` and `VacantEntry`: what they promise about the next insertion.
use zpr_utils.Base.{ℕ, ◌+◌, ◌≡◌, ◌↔◌, refl, sym, ◌∙◌, subst, List, [], ◌∷◌, ok, err, length, arith}
use zpr_utils.Base.Exec.{value}
use zpr_utils.Cslab.Slab.{
  Cslab, Fallible, vacant_key, vacant_entry, VacantEntry, entry_key, entry_insert, insert,
}
use zpr_utils.Cslab.Model.{Model, put, put_first}
use zpr_utils.Cslab.Represents.{Represents, Chain}
use zpr_utils.Cslab.Refines.Insert.{insert-put}

module _ {ℓ} {T : Type ℓ} (v : T) (c : Cslab T) (m : Model T) (rep : Represents c m) where
  vacant_key_first :
      (free : List ℕ)
      → Chain c.table c.size c.first_free free
      → vacant_key c ≡ (put_first v m free).1
  unfolding vacant_key
  vacant_key_first [] chain = ground arith
  vacant_key_first (i ∷ rest) (z, at, low, next, chain) = ground arith

  -- On a slab that represents a model, `vacant_key` gives the answer that inserting into the model
  -- gives, whatever the item.
  pub vacant_key-put : vacant_key c ≡ (put v m).1
  vacant_key-put = vacant_key_first m.free rep.chain

  full_first :
      (free : List ℕ)
      → length free + c.allocated ≡ c.size
      → ((put_first v m free).1 ≡ err tt) ↔ (c.allocated ≡ c.size)
  full_first [] e = (λ _. omega arith, λ _. refl)
  full_first (i ∷ rest) e = (λ h. cc, λ h. absurd (omega arith))

  -- On a slab that represents a model, there is no vacant key exactly when as many slots are
  -- allocated as there are.
  pub vacant_key-full : (vacant_key c ≡ err tt) ↔ (c.allocated ≡ c.size)
  vacant_key-full = rw vacant_key-put (full_first m.free rep.free_count)

  entry_of :
      (e : VacantEntry T)
      → vacant_entry c ≡ ok e
      → (record { slab = c } ≡ e) × (vacant_key c ≡ ok c.first_free)
  unfolding vacant_entry vacant_key
  entry_of e h = ground arith

  entry_runs :
      (c' : Cslab T) (answer : Fallible ℕ)
      → insert v c ≡ value (c', answer)
      → answer ≡ ok c.first_free
      → entry_insert v (record { slab = c }) ≡ value (c', c.first_free)
  unfolding entry_insert
  entry_runs c' answer runs key = ground arith

  -- On a slab that represents a model, inserting into a vacant entry that it gave does not panic:
  -- the item's index is the entry's key, and the slab represents the model's next state.
  pub entry_insert-put :
      (e : VacantEntry T)
      → vacant_entry c ≡ ok e
      → (c' : Cslab T) × (entry_insert v e ≡ value (c', entry_key e)) × Represents c' (put v m).0
  entry_insert-put e h =
      let (c', runs, rep') = insert-put v c m rep in
      let (same, key) = entry_of e h in
      let inserts : entry_insert v (record { slab = c })
          ≡ value (c', entry_key (record { slab = c })) =
        unfold entry_key in entry_runs c' (put v m).1 runs (sym vacant_key-put ∙ key) in
      (c', subst (λ t. entry_insert v t ≡ value (c', entry_key t)) same inserts, rep')
