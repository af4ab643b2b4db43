-- ===== src/Cslab/Rcu/Outcomes.antt =====
-- What a step of a run leaves, from what its operation is known to leave.
use zpr_utils.Base.{
  ℕ, suc, ◌≡◌, inl, inr, refl, sym, ap, ◌∙◌, subst, Option, none, some, List, [], ◌∷◌, get_elem?,
  set,
}
use zpr_utils.Base.Exec.{Exec, value, panic}
use zpr_utils.Cslab.Model.{Slot, vacant, present, pending, Model, lookup, shown}
use zpr_utils.Cslab.Represents.{Represents}
use zpr_utils.Cslab.Refines.Mark.{mark_removed-panic}
use zpr_utils.Cslab.Rcu.{RcuCslab, mark_removed, gen_mark_removed}
use zpr_utils.Cslab.Rcu.Entries.{RcuIterMut, RcuEntry}
use zpr_utils.Cslab.Rcu.Steps.{World, Borrow, free, by_iter, by_entries, Lends}
use zpr_utils.Cslab.Rcu.Runs.{After}
use zpr_utils.Cslab.Rcu.Sessions.{Lent, Session, Next}
use zpr_utils.Cslab.Rcu.Sessions.Keeping.{free-Next}
use zpr_utils.Cslab.Rcu.Sessions.Found.{Finds}

-- What holds of a run's outcome holds of the outcome that a step says it has.
pub determined {ℓ κ} :
    {A : Type ℓ} (P : A → Type κ) (run : Exec A) (a a' : A)
    → run ≡ value a
    → run ≡ value a'
    → P a
    → P a'
determined P run a a' e e' p = let same : a ≡ a' = cc in subst P same p

module _ {ℓ} {T : Type ℓ} where
  pub marked_present :
      (s : RcuCslab T) (m : Model T) (i : ℕ) {s' : RcuCslab T}
      → Represents s.writer m
      → mark_removed i s ≡ value s'
      → (u : T) × (get_elem? m.slots i ≡ some (present u))
  unfolding mark_removed gen_mark_removed
  marked_present s m i {s'} rep run = by_slot (get_elem? m.slots i) refl
    where
      impossible : lookup m i ≡ none → (u : T) × (get_elem? m.slots i ≡ some (present u))
      impossible e =
          let stops : mark_removed i s ≡ panic = rw (mark_removed-panic s.writer m i rep e) refl in
          cc

      by_slot :
          (o : Option (Slot T))
          → get_elem? m.slots i ≡ o
          → (u : T) × (get_elem? m.slots i ≡ some (present u))
      by_slot none e = impossible (ap shown e)
      by_slot (some vacant) e = impossible (ap shown e)
      by_slot (some (present u)) e = (u, e)
      by_slot (some (pending u)) e = impossible (ap shown e)

  -- What is so of a state of a run.
  abbrev pub Sound : World T → Model T → Type ℓ
  Sound w m = Session w.slab m w.readers w.borrow w.entries

  -- What a step leaves.
  abbrev pub Leaves : World T → Model T → World T → Type ℓ
  Leaves w m w' = Next w.slab m w'.slab w'.readers w'.borrow w'.entries

  pub no_entries :
      (b : Borrow) (s : RcuCslab T) (m : Model T) (readers : List ℕ) (xs : List (RcuEntry T))
      → b ≡ free
      → Lent b s m readers xs
      → xs ≡ []
  no_entries free s m readers xs e lent = lent
  no_entries (by_iter it) s m readers xs e lent = cc
  no_entries by_entries s m readers xs e lent = cc

  -- A step while nothing is borrowed.
  pub free_step :
      (w w' : World T) (m : Model T) (readers : List ℕ)
      → Sound w m
      → w.borrow ≡ free
      → w'.readers ≡ readers
      → Lends w w'
      → After w.slab m w'.slab readers
      → Leaves w m w'
  free_step w w' m readers now idle same lends left =
      let none_left = no_entries w.borrow w.slab m w.readers w.entries idle now.lent in
      let next = free-Next w.slab w'.slab m readers left in
      let with_readers = subst (λ t. Next w.slab m w'.slab t free []) (sym same) next in
      let with_borrow =
        subst (λ t. Next w.slab m w'.slab w'.readers t []) (sym (lends.borrow_same ∙ idle))
          with_readers in
      subst (λ t. Next w.slab m w'.slab w'.readers w'.borrow t)
        (sym (lends.entries_same ∙ none_left)) with_borrow

  -- A step of a reader.
  pub reader_step :
      (w w' : World T) (m : Model T) (readers : List ℕ)
      → w'.readers ≡ readers
      → Lends w w'
      → Next w.slab m w'.slab readers w.borrow w.entries
      → Leaves w m w'
  reader_step w w' m readers same lends next =
      let with_readers = subst (λ t. Next w.slab m w'.slab t w.borrow w.entries) (sym same) next in
      let with_borrow =
        subst (λ t. Next w.slab m w'.slab w'.readers t w.entries) (sym lends.borrow_same)
          with_readers in
      subst (λ t. Next w.slab m w'.slab w'.readers w'.borrow t) (sym lends.entries_same) with_borrow

  -- A step of a pass.
  module _ (s : RcuCslab T) (m : Model T) (readers : List ℕ) (it : RcuIterMut)
      (xs : List (RcuEntry T)) (now : Session s m readers (by_iter it) xs)
      (run : Exec (RcuIterMut × RcuCslab T × Option (RcuEntry T))) (it' : RcuIterMut)
      (s' : RcuCslab T) where
    pub found-Next :
        (x : RcuEntry T) (r : ℕ)
        → Finds s m readers it xs now run
        → run ≡ value (it', s', some x)
        → get_elem? readers x.entry_gen ≡ some r
        → Next s m s' (set readers x.entry_gen (suc r)) (by_iter it') (x ∷ xs)
    found-Next x r (inl (it1, runs, next)) e er = cc
    found-Next x r (inr (it1, s1, x1, r1, runs, er1, next)) e er =
        let same_it : it1 ≡ it' = cc in
        let same_state : s1 ≡ s' = cc in
        let same_entry : x1 ≡ x = cc in
        let read = subst (λ y. get_elem? readers y.entry_gen ≡ some r1) same_entry er1 in
        let same_count : r1 ≡ r = cc in
        subst (λ i. Next s m s' (set readers x.entry_gen (suc r)) (by_iter i) (x ∷ xs)) same_it
          (subst (λ t. Next s m t (set readers x.entry_gen (suc r)) (by_iter it1) (x ∷ xs))
            same_state
            (subst (λ y. Next s m s1 (set readers y.entry_gen (suc r)) (by_iter it1) (y ∷ xs))
              same_entry
              (subst (λ q. Next s m s1 (set readers x1.entry_gen (suc q)) (by_iter it1) (x1 ∷ xs))
                same_count next)))

    pub no_entry-Next :
        Finds s m readers it xs now run
        → run ≡ value (it', s', none)
        → Next s m s' readers (by_iter it') xs
    no_entry-Next (inl (it1, runs, next)) e =
        let same_it : it1 ≡ it' = cc in
        let same_state : s ≡ s' = cc in
        subst (λ i. Next s m s' readers (by_iter i) xs) same_it
          (subst (λ t. Next s m t readers (by_iter it1) xs) same_state next)
    no_entry-Next (inr (it1, s1, x1, r1, runs, er1, next)) e = cc
