-- ===== src/Cslab/Rcu/Runs.antt =====
-- The invariant along the runs of an RCU slab, and what it gives its readers.
use zpr_utils.Base.{ℕ, suc, ◌≤◌, ◌≡◌, inl, refl, sym, subst, some, List, get_elem?, set, arith}
use zpr_utils.Base.Exec.{value}
use zpr_utils.Cslab.Slab.{Fallible}
use zpr_utils.Cslab.Model.{present, Model, put, hide}
use zpr_utils.Cslab.Rcu.{
  RcuCslabGen, RcuCslab, insert, mark_removed, reader, clone_reader, drop_reader, add_ref,
}
use zpr_utils.Cslab.Rcu.Owners.{Drops}
use zpr_utils.Cslab.Rcu.Guards.{
  Guarded, Guarded-same, Guarded-put, Guarded-hide, Guarded-Drops, Keeps-later, owners-later-set,
}
use zpr_utils.Cslab.Rcu.Invariant.{Inv, insert-Inv, mark_removed-Inv}
use zpr_utils.Cslab.Rcu.Handles.{reader-Inv, clone_reader-Inv, drop_reader-Inv}
use zpr_utils.Cslab.Rcu.Steps.{reader_of}

module _ {ℓ} {T : Type ℓ} where
  -- What may be dropped in a step that leaves `readers`: nothing that a reader left relies on.
  abbrev pub Protects : RcuCslab T → Model T → RcuCslab T → Model T → List ℕ → Type ℓ
  Protects s m s' m' readers =
      (n i r : ℕ) (v : T)
      → get_elem? readers n ≡ some (suc r)
      → n ≤ s.cur_gen
      → Guarded n i v m s.gens
      → Guarded n i v m' s'.gens

  -- A state that the invariant holds of, whatever happened before.
  pub record After (s : RcuCslab T) (m : Model T) (s' : RcuCslab T) (readers : List ℕ)
      : Type ℓ where
    pub model : Model T
    pub inv : Inv s' model readers
    pub protects : Protects s m s' model readers
    pub cur : s.cur_gen ≤ s'.cur_gen

  module _ (s : RcuCslab T) (m : Model T) (readers : List ℕ) (inv : Inv s m readers) where
    pub insert-After :
        (v : T)
        → (s' : RcuCslab T) × (r : Fallible ℕ) × (insert v s ≡ value (s', r)) × After s m s' readers
    insert-After v =
        let (s', runs, inv', same, cur) = insert-Inv s m readers inv v in
        (
          s',
          (put v m).1,
          runs,
          record {
            model = (put v m).0;
            inv = inv';
            protects = λ n i r u e le guarded.
                subst (λ t. Guarded n i u (put v m).0 t) (sym same)
                  (Guarded-put n i u v m m.free s.gens inv.rep.free_vacant guarded);
            cur = omega (arith, cur);
          },
        )

    pub mark_removed-After :
        (i : ℕ) (u : T)
        → get_elem? m.slots i ≡ some (present u)
        → (s' : RcuCslab T) × (mark_removed i s ≡ value s') × After s m s' readers
    mark_removed-After i u slot =
        let (s', g, eg, runs, inv', gens, cur) = mark_removed-Inv s m readers inv i u slot in
        (
          s',
          runs,
          record {
            model = hide i u m;
            inv = inv';
            protects = λ n k r v e le guarded.
                subst (λ t. Guarded n k v (hide i u m) t) (sym gens)
                  (Guarded-hide n k s.cur_gen i v u m s.gens g slot eg le guarded);
            cur = omega (arith, cur);
          },
        )

    -- A reader more of generation `k`.
    pub referred-Protects :
        (k : ℕ) (g : RcuCslabGen) (s' : RcuCslab T) (readers' : List ℕ)
        → get_elem? s.gens k ≡ some g
        → s'.gens ≡ set s.gens k (add_ref g)
        → Protects s m s' m readers'
    referred-Protects k g s' readers' eg gens n i r v e le guarded =
        subst (λ t. Guarded n i v m t) (sym gens)
          (Guarded-same n i v m m s.gens (set s.gens k (add_ref g)) refl
            (owners-later-set n k i s.gens g (add_ref g) eg (omega arith)) guarded)

    pub reader-After :
        (s' : RcuCslab T) × (r : ℕ) × (get_elem? readers s.cur_gen ≡ some r)
        × (reader s ≡ value (s', reader_of s.cur_gen))
        × After s m s' (set readers s.cur_gen (suc r))
    reader-After =
        let (s', r, g, er, eg, runs, cur, inv', gens) = reader-Inv s m readers inv in
        (
          s',
          r,
          er,
          runs,
          record {
            model = m;
            inv = inv';
            protects = referred-Protects s.cur_gen g s' (set readers s.cur_gen (suc r)) eg gens;
            cur = omega (arith, cur);
          },
        )

    pub clone_reader-After :
        (k r : ℕ)
        → get_elem? readers k ≡ some (suc r)
        → (s' : RcuCslab T) × (clone_reader (reader_of k) s ≡ value (s', reader_of k))
          × (left : After s m s' (set readers k (suc (suc r)))) × Drops m left.model
          × (s'.cur_gen ≡ s.cur_gen)
    clone_reader-After k r er =
        let (s', g, eg, runs, inv', gens, cur) = clone_reader-Inv s m readers inv k r er in
        (
          s',
          runs,
          record {
            model = m;
            inv = inv';
            protects = referred-Protects k g s' (set readers k (suc (suc r))) eg gens;
            cur = omega (arith, cur);
          },
          (λ j. inl refl),
          cur,
        )

    -- Dropping a reader that exists succeeds, and protects what the readers left rely on.
    pub drop_reader-After :
        (k r : ℕ)
        → get_elem? readers k ≡ some (suc r)
        → (s' : RcuCslab T) × (drop_reader (reader_of k) s ≡ value s')
          × (left : After s m s' (set readers k r)) × Drops m left.model
          × (s'.cur_gen ≡ s.cur_gen)
    drop_reader-After k r er =
        let (s', m', runs, inv', gone, keeps, cur) = drop_reader-Inv s m readers inv k r er in
        (
          s',
          runs,
          record {
            model = m';
            inv = inv';
            protects = λ n i q v e le guarded.
                let same =
                  Keeps-later n q i (set readers k r) s.gens s'.gens keeps e
                    (omega (arith, inv.last)) in
                Guarded-Drops n i v m m' s.gens s'.gens gone inv'.owned (omega (arith, same))
                  guarded;
            cur = omega (arith, cur);
          },
          gone,
          cur,
        )
