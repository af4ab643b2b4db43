-- ===== src/Cslab/Rcu/Ends.antt =====
-- cslab/src/lib.rs: the end of an RCU slab. The drop of an `RcuCslab` gives up its reference to the
-- current generation; the storage is dropped when the last handle to it is gone.
mod Examples
use zpr_utils.Base.{
  ℕ, zero, suc, ◌+◌, ◌≡◌, ◌≢◌, refl, sym, ap, ◌∙◌, Option, some, List, [], ◌∷◌, ◌==◌, true, length,
  get_elem?, arith, Bool,
}
use zpr_utils.Base.Exec.{Exec, value, ◌>>=◌}
use zpr_utils.Cslab.Storage.{get_impl}
use zpr_utils.Cslab.Slab.{Cslab}
use zpr_utils.Cslab.Model.{Slot, vacant, present, pending, Model, lookup}
use zpr_utils.Cslab.Represents.{Represents}
use zpr_utils.Cslab.Storage.{Allocation}
use zpr_utils.Cslab.Refines.Create.{LayoutBounded}
use zpr_utils.Cslab.Refines.Lookup.{get_impl-lookup}
use zpr_utils.Cslab.Iter.Drops.{storage_drop, storage_drop-presents, presents}
use zpr_utils.Cslab.Rcu.{
  RcuCslab, RcuCslabGen, release, release_at, finalize_all, with_fixed_capacity,
}
use zpr_utils.Cslab.Rcu.Owners.{owners, times, is_pending, Owned, Drops, finalize_all-Owned}
use zpr_utils.Cslab.Rcu.Counts.{Counts, alive}
use zpr_utils.Cslab.Rcu.Entries.Clear.{Drops-lookup}
use zpr_utils.Cslab.Rcu.Steps.{World, Reach, new_world}
use zpr_utils.Cslab.Rcu.Readers.{reach-Inv}

abbrev pub Unread : List ℕ → Type 0
Unread readers = (k r : ℕ) → get_elem? readers k ≡ some r → r ≡ 0

module _ {ℓ} {T : Type ℓ} where
  unfoldable pub rcu_drop : RcuCslab T → Exec (RcuCslab T)
  rcu_drop s = do
    done ← release_at s.cur_gen s.gens s.writer
    value (record s { gens = done.0; writer = done.1 })

  -- The items of all slots that have one.
  abbrev pub held : List (Slot T) → List T
  held [] = []
  held (vacant ∷ slots) = held slots
  held (present v ∷ slots) = v ∷ held slots
  held (pending v ∷ slots) = v ∷ held slots

  presents-held :
      (slots : List (Slot T))
      → ((j : ℕ) → is_pending (get_elem? slots j) ≡ 0)
      → presents slots ≡ held slots
  presents-held [] settled = refl
  presents-held (vacant ∷ slots) settled = presents-held slots (λ j. settled (suc j))
  presents-held (present v ∷ slots) settled =
      ap (λ l. v ∷ l) (presents-held slots (λ j. settled (suc j)))
  presents-held (pending v ∷ slots) settled = absurd (omega (arith, settled 0))

  -- The last reference to the last generation finalizes what that one owns.
  release-only :
      (g : RcuCslabGen) (c c' : Cslab T) (items : List T)
      → g.strong ≡ 1
      → g.next_gen ≡ Bool.false
      → finalize_all g.pending_removes c ≡ value (c', items)
      → release (g ∷ []) c ≡ value (record g { strong = 0; pending_removes = [] } ∷ [], c')
  unfolding release
  release-only g c c' items one last runs =
      let test : (g.strong == 1) ≡ true = ground arith in rw (release, test, runs, last) refl

  -- Where no generation has a reader, nothing is owned when the slab is gone but by the frame.
  release_at-Owned :
      (n extra : ℕ) (readers : List ℕ) (gens : List RcuCslabGen) (c : Cslab T) (m : Model T)
      (frame : ℕ → ℕ)
      → extra ≡ 0
      → n + 1 ≡ length gens
      → Counts extra readers gens
      → Unread readers
      → Represents c m
      → Owned (λ j. owners j gens + frame j) m
      → (gens' : List RcuCslabGen) × (c' : Cslab T) × (m' : Model T) × (release_at n gens c
          ≡ value (gens', c'))
        × Represents c' m'
        × Owned frame m'
        × Drops m m'
  unfolding release_at
  release_at-Owned n extra readers [] c m frame z e counts unread rep owned =
      absurd (omega (arith, e))
  release_at-Owned n extra [] (g ∷ gens) c m frame z e counts unread rep owned = absurd counts
  release_at-Owned zero extra (r ∷ readers) (g ∷ g' ∷ gens) c m frame z e counts unread rep owned =
      absurd (omega (arith, e))
  release_at-Owned zero extra (r ∷ readers) (g ∷ []) c m frame z e counts unread rep owned =
      let none_left = unread 0 r refl in
      let (c', m', items, runs, rep', owned', drops) =
        finalize_all-Owned g.pending_removes frame c m rep (λ j. omega (arith, owned j)) in
      (
        record g { strong = 0; pending_removes = [] } ∷ [],
        c',
        m',
        release-only g c c' items (omega (arith, counts.0)) counts.1 runs,
        rep',
        owned',
        drops,
      )
  release_at-Owned (suc n) extra (r ∷ readers) (g ∷ []) c m frame z e counts unread rep owned =
      absurd (omega (arith, e))
  release_at-Owned (suc n) extra (r ∷ readers) (g ∷ g' ∷ gens) c m frame z e counts unread rep
        owned =
      let none_left = unread 0 r refl in
      let dead : g.strong ≡ 0 = omega (arith, counts.0) in
      let emptied : (j : ℕ) → times j g.pending_removes ≡ 0 = λ j. ap (times j) (counts.2 dead) in
      let (gens', c', m', runs, rep', owned', drops) =
        release_at-Owned n (alive g.strong) readers (g' ∷ gens) c m frame (ap alive dead)
          (omega (arith, e)) counts.3 (λ k q f. unread (suc k) q f) rep
          (λ j. omega (arith, owned j, emptied j)) in
      (g ∷ gens', c', m', rw runs refl, rep', owned', drops)

module _ {ℓ} {T : Type ℓ} (allocates : ℕ → Allocation) (bounded : LayoutBounded allocates)
    (capacity : ℕ) (s : RcuCslab T)
    (created : with_fixed_capacity allocates capacity ≡ value s) where
  -- In every run of a new slab, of which layouts exist only for capacities below 2 ^ 63, of its
  -- readers, and of the passes of `iter_mut` and their entries: when no reader and no entry is left,
  -- the drop of the slab succeeds and finalizes all that is pending. `get` would show what it showed
  -- before, and the drop of the storage then drops the items of all slots that have one, so that
  -- nothing is leaked.
  pub reach-rcu_drop :
      (w : World T)
      → Reach (new_world s) w
      → Unread w.readers
      → (s' : RcuCslab T) × (m' : Model T) × (rcu_drop w.slab ≡ value s')
        × Represents s'.writer m'
        × ((i : ℕ) → get_impl s'.writer.storage i ≡ get_impl w.slab.writer.storage i)
        × (storage_drop s'.writer.storage ≡ value (held m'.slots))
  unfolding rcu_drop
  reach-rcu_drop w reach unread =
      let (m, inv) = reach-Inv allocates bounded capacity s created w reach in
      let (gens', c', m', runs, rep', owned', drops) =
        release_at-Owned w.slab.cur_gen 0 w.readers w.slab.gens w.slab.writer m (λ j. 0) refl
          inv.last inv.counts unread inv.rep (λ j. omega (arith, inv.owned j)) in
      (
        record w.slab { gens = gens'; writer = c' },
        m',
        rw runs refl,
        rep',
        λ i.
            get_impl-lookup c' m' rep' i
            ∙ ap value (Drops-lookup m m' drops i)
            ∙ sym (get_impl-lookup w.slab.writer m inv.rep i),
        storage_drop-presents c' m' rep' ∙ ap value (presents-held m'.slots (λ j. sym (owned' j))),
      )
