-- ===== src/Cslab/Rcu/Schedules.antt =====
-- That a new generation keeps the invariant and what the readers rely on.
use zpr_utils.Base.{
  ℕ, zero, suc, true, ◌+◌, ◌≤◌, ◌<◌, ◌≡◌, refl, sym, ap, subst, some, List, [], ◌∷◌, ◌++◌, length,
  get_elem?, set, arith,
}
use zpr_utils.Base.Exec.{value}
use zpr_utils.Cslab.Model.{Model}
use zpr_utils.Cslab.Rcu.{
  RcuCslabGen, RcuCslab, schedule_finalization, advance_generation, add_ref, new_gen,
}
use zpr_utils.Cslab.Rcu.Advances.{extended, length-extended}
use zpr_utils.Cslab.Rcu.Owners.{owners, Drops}
use zpr_utils.Cslab.Rcu.Guards.{
  later, Guarded, Guarded-same, Guarded-Drops, Keeps-later, owners-later-set, owners-later-append,
}
use zpr_utils.Cslab.Rcu.Invariant.{Inv, Counts-length}
use zpr_utils.Cslab.Rcu.Handles.{reader-Inv, advance_generation-Inv}
use zpr_utils.Cslab.Rcu.Steps.{reader_of}
use zpr_utils.Cslab.Rcu.Runs.{After}

module _ {ℓ} {T : Type ℓ} (s : RcuCslab T) (m : Model T) (readers : List ℕ)
    (inv : Inv s m readers) where
  later-extended :
      (n i : ℕ) (g : RcuCslabGen)
      → get_elem? s.gens s.cur_gen ≡ some g
      → owners i (later n s.gens) ≤ owners i (later n (extended s.gens s.cur_gen g))
  later-extended n i g eg =
      let g' : RcuCslabGen = record g { next_gen = true } in
      let first = owners-later-set n s.cur_gen i s.gens g g' eg (omega arith) in
      let second = owners-later-append n i (set s.gens s.cur_gen g') (add_ref new_gen ∷ []) in
      omega arith

  -- A new generation protects what the readers rely on.
  pub advance_generation-After :
      (s' : RcuCslab T) × (advance_generation s ≡ value s')
      × (left : After s m s' (readers ++ 0 ∷ [])) × Drops m left.model
      × (s'.cur_gen ≡ s.cur_gen + 1)
  advance_generation-After =
      let (s1, m1, g, eg, runs, inv1, gone, keeps, cur1) = advance_generation-Inv s m readers inv in
      (
        s1,
        runs,
        record {
          model = m1;
          inv = inv1;
          protects = λ n i q v e le guarded.
              let long = length-extended s.gens s.cur_gen g in
              let same =
                Keeps-later n q i (readers ++ 0 ∷ []) (extended s.gens s.cur_gen g) s1.gens keeps e
                  (omega (arith, long, inv.last)) in
              let more = later-extended n i g eg in
              Guarded-Drops n i v m m1 s.gens s1.gens gone inv1.owned (omega arith) guarded;
          cur = omega (arith, cur1);
        },
        gone,
        cur1,
      )

  -- The reader that is returned is the only one of the new generation.
  pub schedule_finalization-After :
      (s' : RcuCslab T) × (schedule_finalization s ≡ value (s', reader_of (s.cur_gen + 1)))
      × (left : After s m s' (readers ++ 1 ∷ [])) × Drops m left.model
  unfolding schedule_finalization
  schedule_finalization-After =
      let (s1, runs, left, gone, cur1) = advance_generation-After in
      let (s2, r, g2, er, eg2, runs2, cur2, inv2, gens2) =
        reader-Inv s1 left.model (readers ++ 0 ∷ []) left.inv in
      let at_end : s1.cur_gen ≡ length readers =
        omega (arith, cur1, inv.last, Counts-length 0 readers s.gens inv.counts) in
      let counted = set_last readers s1.cur_gen r at_end er in
      (
        s2,
        rw (runs, runs2, sym cur1) refl,
        record {
          model = left.model;
          inv = subst (λ t. Inv s2 left.model t) counted inv2;
          protects = λ n i q v e le guarded.
              let kept =
                before_last readers n q e
                  (omega (arith, inv.last, Counts-length 0 readers s.gens inv.counts)) in
              subst (λ t. Guarded n i v left.model t) (sym gens2)
                (Guarded-same n i v left.model left.model s1.gens
                  (set s1.gens s1.cur_gen (add_ref g2)) refl
                  (owners-later-set n s1.cur_gen i s1.gens g2 (add_ref g2) eg2 (omega arith))
                  (left.protects n i q v kept le guarded));
          cur = omega (arith, cur1, cur2);
        },
        gone,
      )
    where
      set_last :
          (xs : List ℕ) (n r : ℕ)
          → n ≡ length xs
          → get_elem? (xs ++ 0 ∷ []) n ≡ some r
          → set (xs ++ 0 ∷ []) n (suc r) ≡ xs ++ 1 ∷ []
      set_last [] zero r len e =
          let zeros : ◌≡◌ {A = ℕ} 0 r = cc in ap (λ (t : ℕ). suc t ∷ []) (sym zeros)
      set_last [] (suc n) r len e = absurd (omega arith)
      set_last (x ∷ xs) zero r len e = absurd (omega arith)
      set_last (x ∷ xs) (suc n) r len e = ap (λ t. x ∷ t) (set_last xs n r (omega arith) e)

      before_last :
          (xs : List ℕ) (n q : ℕ)
          → get_elem? (xs ++ 1 ∷ []) n ≡ some (suc q)
          → n < length xs
          → get_elem? (xs ++ 0 ∷ []) n ≡ some (suc q)
      before_last [] n q e lt = absurd (omega arith)
      before_last (x ∷ xs) zero q e lt = e
      before_last (x ∷ xs) (suc n) q e lt = before_last xs n q e (omega arith)
