-- ===== src/Cslab/Rcu/Readers.antt =====
-- What holds of an RCU slab and its readers in every run from a new slab.
use zpr_utils.Base.{
  ℕ, zero, suc, ◌+◌, ◌≤◌, ◌<◌, ◌≡◌, ◌⊎◌, inl, inr, refl, sym, ap, ◌∙◌, subst, some, List, [], ◌∷◌,
  length, get_elem?, lt_of_get_elem?, arith,
}
use zpr_utils.Base.Exec.{value, panic, undefined}
use zpr_utils.Cslab.Slab
use zpr_utils.Cslab.Slab.{Cslab, Fallible}
use zpr_utils.Cslab.Storage.{get_unchecked_impl, get_impl, Allocation, no_layout, no_memory, zeroed}
use zpr_utils.Cslab.Model.{present, pending, Model, initial, lookup}
use zpr_utils.Cslab.Represents.{Represents}
use zpr_utils.Cslab.Refines.Create.{LayoutBounded, with_fixed_capacity-initial}
use zpr_utils.Cslab.Refines.Lookup.{get_unchecked_impl-item, get_impl-lookup, shown_inv}
use zpr_utils.Cslab.Rcu.{
  RcuCslabGen, RcuCslab, with_fixed_capacity, clone_reader, drop_reader, schedule_finalization,
  new_gen,
}
use zpr_utils.Cslab.Rcu.Counts.{Counts, alive}
use zpr_utils.Cslab.Rcu.Owners.{is_pending}
use zpr_utils.Cslab.Rcu.Guards.{Guarded}
use zpr_utils.Cslab.Rcu.Invariant.{Inv, Counts-length}
use zpr_utils.Cslab.Rcu.Steps.{
  World, Reach, start, after, Holding, held, onward, new_world, reader_of,
}
use zpr_utils.Cslab.Rcu.Runs.{clone_reader-After, drop_reader-After}
use zpr_utils.Cslab.Rcu.Schedules.{schedule_finalization-After}
use zpr_utils.Cslab.Rcu.Outcomes.{Sound}
use zpr_utils.Cslab.Rcu.Kept.{Step-Leaves}

-- Generations without a reader up to a given one, which is not the last, are finalized.
drained :
    (n extra : ℕ) (readers : List ℕ) (gens : List RcuCslabGen)
    → Counts extra readers gens
    → extra ≡ 0
    → n + 1 < length gens
    → ((k : ℕ) → k ≤ n → get_elem? readers k ≡ some 0)
    → (g : RcuCslabGen) × (get_elem? gens n ≡ some g) × (g.strong ≡ 0) × (g.pending_removes ≡ [])
drained n extra readers [] counts z lt all = absurd (omega arith)
drained n extra [] (g ∷ gens) counts z lt all = absurd counts
drained n extra (r ∷ readers) (g ∷ []) counts z lt all = absurd (omega arith)
drained zero extra (r ∷ readers) (g ∷ g' ∷ gens) counts z lt all =
    let unread : r ≡ 0 = let e = all 0 (omega arith) in cc in
    let dead : g.strong ≡ 0 = omega (arith, counts.0) in (g, refl, dead, counts.2 dead)
drained (suc n) extra (r ∷ readers) (g ∷ g' ∷ gens) counts z lt all =
    let unread : r ≡ 0 = let e = all 0 (omega arith) in cc in
    let dead : g.strong ≡ 0 = omega (arith, counts.0) in
    drained n (alive g.strong) readers (g' ∷ gens) counts.3 (ap alive dead) (omega arith)
      (λ k le. all (suc k) (omega arith))

none_pending {ℓ} : (T : Type ℓ) (k j : ℕ) → is_pending (get_elem? (initial {T = T} k).slots j) ≡ 0
none_pending T zero j = refl
none_pending T (suc k) zero = refl
none_pending T (suc k) (suc j) = none_pending T k j

module _ {ℓ} {T : Type ℓ} where
  -- The invariant goes with a run, and so does what a reader that is kept relies on.
  Holding-Guarded :
      (n i : ℕ) (v : T) (w w' : World T) (m : Model T)
      → Sound w m
      → Guarded n i v m w.slab.gens
      → Holding n w w'
      → (m' : Model T) × Sound w' m' × Guarded n i v m' w'.slab.gens × (n ≤ w'.slab.cur_gen)
  Holding-Guarded n i v w w' m now guarded (held r e) = (
    m,
    now,
    guarded,
    omega (
      arith,
      now.inv.last,
      Counts-length 0 w.readers w.slab.gens now.inv.counts,
      lt_of_get_elem? w.readers n e,
    ),
  )
  Holding-Guarded n i v w w' m now guarded (onward {w' = w1} r before step e) =
      let (m1, now1, guarded1, le) = Holding-Guarded n i v w w1 m now guarded before in
      let next = Step-Leaves w1 w' m1 now1 step in
      (next.model, next.session, next.protects n i r v e le guarded1, omega (arith, le, next.cur))

module _ {ℓ} {T : Type ℓ} (allocates : ℕ → Allocation) (bounded : LayoutBounded allocates)
    (capacity : ℕ) (s : RcuCslab T)
    (created : with_fixed_capacity allocates capacity ≡ value s) where
  new-Inv : Inv s (initial capacity) (0 ∷ [])
  unfolding with_fixed_capacity
  new-Inv = by_cases (with_fixed_capacity-initial T allocates capacity bounded)
    where
      by_cases :
          (((capacity ≡ 0) ⊎ (allocates capacity ≡ no_layout))
              × (Slab.with_fixed_capacity {T = T} allocates capacity ≡ panic))
            ⊎ (((1 ≤ capacity)
                  × (allocates capacity ≡ no_memory)
                  × (Slab.with_fixed_capacity {T = T} allocates capacity ≡ undefined))
                ⊎ ((c : Cslab T) × (Slab.with_fixed_capacity allocates capacity ≡ value c)
                    × Represents c (initial capacity)
                    × (allocates capacity ≡ zeroed)))
          → Inv s (initial capacity) (0 ∷ [])
      by_cases (inl (refused, stops)) =
          let e : panic ≡ value s = sym (rw stops refl) ∙ created in cc
      by_cases (inr (inl (positive, exhausted, faults))) =
          let e : undefined ≡ value s = sym (rw faults refl) ∙ created in cc
      by_cases (inr (inr (c, runs, rep, backed))) =
          let made : RcuCslab T = record {
            capacity = capacity;
            writer = c;
            gens = new_gen ∷ [];
            cur_gen = 0;
          } in
          let runs' : with_fixed_capacity allocates capacity ≡ value made = rw runs refl in
          let same : made ≡ s = cc in
          subst (λ t. Inv t (initial capacity) (0 ∷ [])) same
            (record {
              rep = rep;
              counts = (refl, refl, λ e. absurd (omega arith), tt);
              last = refl;
              owned = λ j. sym (none_pending T capacity j);
            })

  pub reach-Sound : (w : World T) → Reach (new_world s) w → (m : Model T) × Sound w m
  reach-Sound w start = (
    initial capacity,
    record {
      inv = new-Inv;
      showing = tt;
      distinct = tt;
      counted = λ n r e. omega arith;
      lent = refl;
    },
  )
  reach-Sound w (after {w'} before step) =
      let (m, now) = reach-Sound w' before in
      let next = Step-Leaves w' w m now step in (next.model, next.session)

  -- In every run of a new slab, of which layouts exist only for capacities below 2 ^ 63, of its
  -- readers, and of the passes of `iter_mut` and their entries, the slab represents a model, the
  -- reference counts of the generations count their readers, entries among them, and the references
  -- of one to the next, and each pending item is owned by one generation, once.
  pub reach-Inv : (w : World T) → Reach (new_world s) w → (m : Model T) × Inv w.slab m w.readers
  reach-Inv w reach = let (m, now) = reach-Sound w reach in (m, now.inv)

  -- In every run of a new slab, of which layouts exist only for capacities below 2 ^ 63, of its
  -- readers, and of the passes of `iter_mut` and their entries: a reader that exists can be dropped
  -- and cloned, and a new generation begun, without a panic or undefined behaviour.
  pub reach-drop_reader :
      (w : World T) (n r : ℕ)
      → Reach (new_world s) w
      → get_elem? w.readers n ≡ some (suc r)
      → ((s' : RcuCslab T) × (drop_reader (reader_of n) w.slab ≡ value s'))
        × ((s' : RcuCslab T) × (clone_reader (reader_of n) w.slab ≡ value (s', reader_of n)))
        × ((s' : RcuCslab T) × (schedule_finalization w.slab
              ≡ value (s', reader_of (w.slab.cur_gen + 1))))
  reach-drop_reader w n r reach e =
      let (m, inv) = reach-Inv w reach in
      let (s1, runs1, left1, drops1, cur1) = drop_reader-After w.slab m w.readers inv n r e in
      let (s2, runs2, left2, drops2, cur2) = clone_reader-After w.slab m w.readers inv n r e in
      let (s3, runs3, left3, gone3) = schedule_finalization-After w.slab m w.readers inv in
      ((s1, runs1), (s2, runs2), (s3, runs3))

  -- In every run of a new slab, of which layouts exist only for capacities below 2 ^ 63, of its
  -- readers, and of the passes of `iter_mut` and their entries: an item that `get` has returned can
  -- be read unchecked from then on, as long as a reader or entry of some generation is held from
  -- that time on.
  pub reach-get_unchecked :
      (w w' : World T) (n i : ℕ) (v : T)
      → Reach (new_world s) w
      → get_impl w.slab.writer.storage i ≡ value (some v)
      → Holding n w w'
      → get_unchecked_impl w'.slab.writer.storage i ≡ value v
  reach-get_unchecked w w' n i v reach seen holding =
      let (m, now) = reach-Sound w reach in
      let inv = now.inv in
      let shows : lookup m i ≡ some v = let e = get_impl-lookup w.slab.writer m inv.rep i in cc in
      let slot = shown_inv w.slab.writer m inv.rep i (get_elem? m.slots i) v shows in
      let (m', now', guarded, le) = Holding-Guarded n i v w w' m now (inl slot) holding in
      get_unchecked_impl-item w'.slab.writer m' now'.inv.rep i v (readable m' guarded)
    where
      readable :
          (m' : Model T)
          → Guarded n i v m' w'.slab.gens
          → (get_elem? m'.slots i ≡ some (present v)) ⊎ (get_elem? m'.slots i ≡ some (pending v))
      readable m' (inl e) = inl e
      readable m' (inr (e, own)) = inr e

  -- In every run of a new slab, of which layouts exist only for capacities below 2 ^ 63, of its
  -- readers, and of the passes of `iter_mut` and their entries: a generation before the current one
  -- of which, and of all older ones, no reader and no entry is left has been dropped, and has no
  -- pending removals any more.
  pub reach-drained :
      (w : World T) (n : ℕ)
      → Reach (new_world s) w
      → n < w.slab.cur_gen
      → ((k : ℕ) → k ≤ n → get_elem? w.readers k ≡ some 0)
      → (g : RcuCslabGen) × (get_elem? w.slab.gens n ≡ some g)
        × (g.strong ≡ 0)
        × (g.pending_removes ≡ [])
  reach-drained w n reach lt unread =
      let (m, inv) = reach-Inv w reach in
      drained n 0 w.readers w.slab.gens inv.counts refl (omega (arith, inv.last)) unread
