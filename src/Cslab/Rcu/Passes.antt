-- ===== src/Cslab/Rcu/Passes.antt =====
-- What holds of the passes of `iter_mut` and of their entries in every run from a new slab.
mod Examples
use zpr_utils.Base.{
  ℕ, zero, suc, ◌+◌, ◌≤◌, ◌≡◌, ◌≢◌, ◌⊎◌, inl, inr, refl, sym, ap, ◌∙◌, subst, Bool, Option, none,
  some, List, ◌∷◌, ◌++◌, length, get_elem?, get_elem?-of_lt, All, arith,
}
use zpr_utils.Base.Exec.{value}
use zpr_utils.Cslab.Storage.{get_unchecked_impl, get_impl}
use zpr_utils.Cslab.Model.{Model, shown}
use zpr_utils.Cslab.Storage.{Allocation}
use zpr_utils.Cslab.Refines.Create.{LayoutBounded}
use zpr_utils.Cslab.Refines.Lookup.{get_unchecked_impl-item, get_impl-lookup}
use zpr_utils.Cslab.Rcu.{RcuCslab, with_fixed_capacity}
use zpr_utils.Cslab.Rcu.Invariant.{Counts-length}
use zpr_utils.Cslab.Rcu.Entries.{RcuIterMut, RcuEntry, drop_iter_mut, entry_remove, drop_entry}
use zpr_utils.Cslab.Rcu.Steps.{
  World, Reach, new_world, Borrow, free, by_iter, by_entries, End, take_entry_at, entries_of,
}
use zpr_utils.Cslab.Rcu.Distinct.{Fresh, All-taken, entries_of-taken}
use zpr_utils.Cslab.Rcu.Sessions.{Showing, Lent, Session}
use zpr_utils.Cslab.Rcu.Sessions.Found.{Finds}
use zpr_utils.Cslab.Rcu.Sessions.Finds.{take_entry_at-Finds}
use zpr_utils.Cslab.Rcu.Sessions.Removing.{not-empty, drop_entry-Next}
use zpr_utils.Cslab.Rcu.Sessions.Marking.{entry_remove-Next}
use zpr_utils.Cslab.Rcu.Sessions.Turns.{drop_iter_mut-Next}
use zpr_utils.Cslab.Rcu.Outcomes.{Sound}
use zpr_utils.Cslab.Rcu.Readers.{reach-Sound}

module _ {ℓ} {T : Type ℓ} where
  -- An entry's generation exists, and the entry is counted among its readers.
  module _ (s : RcuCslab T) (m : Model T) (readers : List ℕ) (before behind : List (RcuEntry T))
      (x : RcuEntry T) where
    gen_exists : (b : Borrow) → Lent b s m readers (before ++ x ∷ behind) → x.entry_gen ≤ s.cur_gen
    gen_exists free lent = absurd (not-empty before behind x lent)
    gen_exists (by_iter it) lent =
        omega (arith, (All-taken (λ y. y.entry_gen ≡ s.cur_gen) before behind x lent.of_current).0)
    gen_exists by_entries lent =
        omega
          (arith, (All-taken (λ y. y.entry_gen + 1 ≡ s.cur_gen) before behind x lent.of_previous).0)

    is_counted :
        (b : Borrow)
        → Session s m readers b (before ++ x ∷ behind)
        → (r : ℕ) × (get_elem? readers x.entry_gen ≡ some (suc r))
    is_counted b now =
        let low = gen_exists b now.lent in
        let (r, er) =
          get_elem?-of_lt readers x.entry_gen
            (omega (arith, now.inv.last, Counts-length 0 readers s.gens now.inv.counts)) in
        positive r er (now.counted x.entry_gen r er) (entries_of-taken x.entry_gen before behind x)
      where
        positive :
            (r : ℕ)
            → get_elem? readers x.entry_gen ≡ some r
            → entries_of x.entry_gen (before ++ x ∷ behind) ≤ r
            → entries_of x.entry_gen (before ++ x ∷ behind)
              ≡ entries_of x.entry_gen (x ∷ (before ++ behind))
            → (r' : ℕ) × (get_elem? readers x.entry_gen ≡ some (suc r'))
        positive zero er few split = absurd (ground (arith, few, split))
        positive (suc r) er few split = (r, er)

module _ {ℓ} {T : Type ℓ} where
  -- What a pass finds: nothing, or an entry that `get` shows, and that is none of those there are.
  abbrev pub Found : World T → RcuCslab T → Option (RcuEntry T) → Type ℓ
  Found w s' none = Unit
  Found w s' (some x) =
      (get_impl s'.writer.storage x.idx ≡ value (some x.item)) × Fresh x.idx w.entries

module _ {ℓ} {T : Type ℓ} (allocates : ℕ → Allocation) (bounded : LayoutBounded allocates)
    (capacity : ℕ) (s : RcuCslab T)
    (created : with_fixed_capacity allocates capacity ≡ value s) where
  -- In every run of a new slab, of which layouts exist only for capacities below 2 ^ 63, of its
  -- readers, and of the passes of `iter_mut` and their entries: as long as an entry exists, its item
  -- can be read at its index, and it can be removed and dropped without a panic or undefined
  -- behaviour, also after its pass has been dropped.
  pub reach-entry_remove :
      (w : World T) (before behind : List (RcuEntry T)) (x : RcuEntry T)
      → Reach (new_world s) w
      → w.entries ≡ before ++ x ∷ behind
      → (get_unchecked_impl w.slab.writer.storage x.idx ≡ value x.item)
        × ((s' : RcuCslab T) × (entry_remove x w.slab ≡ value s'))
        × ((s' : RcuCslab T) × (drop_entry x w.slab ≡ value s'))
  reach-entry_remove w before behind x reach among =
      let (m, all) = reach-Sound allocates bounded capacity s created w reach in
      let now = subst (λ t. Session w.slab m w.readers w.borrow t) among all in
      let (slot, others) = All-taken (Showing m) before behind x now.showing in
      let (r, er) = is_counted w.slab m w.readers before behind x w.borrow now in
      let (s1, runs1, next1) =
        entry_remove-Next w.slab m w.readers before behind x w.borrow r now er in
      let (s2, runs2, next2) =
        drop_entry-Next w.slab m w.readers before behind x w.borrow r now er in
      (
        get_unchecked_impl-item w.slab.writer m now.inv.rep x.idx x.item (inl slot),
        (s1, runs1),
        (s2, runs2),
      )

  -- In every run of a new slab, of which layouts exist only for capacities below 2 ^ 63, of its
  -- readers, and of the passes of `iter_mut` and their entries: `next` and `next_back` of a pass, and
  -- its drop, succeed without a panic or undefined behaviour, and an entry that is found has the
  -- item that `get` shows at its index, which is the index of no other entry there is.
  pub reach-take_entry_at :
      (w : World T) (it : RcuIterMut) (end : End)
      → Reach (new_world s) w
      → w.borrow ≡ by_iter it
      → ((it' : RcuIterMut) × (s' : RcuCslab T) × (o : Option (RcuEntry T)) × (take_entry_at end it
              w.slab
            ≡ value (it', s', o))
          × Found w s' o)
        × ((s' : RcuCslab T) × (drop_iter_mut w.slab ≡ value s'))
  reach-take_entry_at w it end reach borrowed =
      let (m, all) = reach-Sound allocates bounded capacity s created w reach in
      let now = subst (λ b. Session w.slab m w.readers b w.entries) borrowed all in
      let (s2, runs2, next2) = drop_iter_mut-Next w.slab m w.readers it w.entries now in
      (outcome m now (take_entry_at-Finds w.slab m w.readers it w.entries now end), (s2, runs2))
    where
      outcome :
          (m : Model T) (now : Session w.slab m w.readers (by_iter it) w.entries)
          → Finds w.slab m w.readers it w.entries now (take_entry_at end it w.slab)
          → (it' : RcuIterMut) × (s' : RcuCslab T) × (o : Option (RcuEntry T)) × (take_entry_at end
                it w.slab
              ≡ value (it', s', o))
            × Found w s' o
      outcome m now (inl (it', runs, next)) = (it', w.slab, none, runs, tt)
      outcome m now (inr (it', s', x, r, runs, er, next)) =
          let after = next.session in
          let shows =
            get_impl-lookup s'.writer next.model after.inv.rep x.idx
            ∙ ap (λ o. value (shown o)) after.showing.0 in
          (it', s', some x, runs, (shows, after.distinct.0))
