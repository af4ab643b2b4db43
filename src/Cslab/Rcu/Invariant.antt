-- ===== src/Cslab/Rcu/Invariant.antt =====
-- The invariant of an RCU slab, and that every operation keeps it.
use zpr_utils.Base.{
  ℕ, zero, suc, ◌+◌, ◌≤◌, ◌≡◌, inl, inr, refl, sym, ap, ◌∙◌, subst, some, List, [], ◌∷◌, ◌++◌, ◌==◌,
  if◌then◌else◌, length, length-set, get_elem?, get_elem?-of_lt, get_elem?-set_ne,
  get_elem?-set_self, lt_of_get_elem?, set, All, arith,
}
use zpr_utils.Base.Exec.{value, index-at}
use zpr_utils.Cslab.Bitmap.{dec_eq}
use zpr_utils.Cslab.Model.{vacant, present, pending, Model, put, put_first, hide}
use zpr_utils.Cslab.Represents.{Represents}
use zpr_utils.Cslab.Refines.Insert.{insert-put}
use zpr_utils.Cslab.Refines.Mark.{mark_removed-hide}
use zpr_utils.Cslab.Rcu.{RcuCslabGen, RcuCslab, insert, gen_mark_removed, mark_removed}
use zpr_utils.Cslab.Rcu.Owners.{times, owners, is_pending, Owned}
use zpr_utils.Cslab.Rcu.Counts.{Counts, Counts-set, strong-pos, owners-set}

pub Counts-length :
    (extra : ℕ) (readers : List ℕ) (gens : List RcuCslabGen)
    → Counts extra readers gens
    → length readers ≡ length gens
Counts-length extra [] [] h = refl
Counts-length extra [] (g ∷ gens) h = absurd h
Counts-length extra (r ∷ readers) [] h = absurd h
Counts-length extra (r ∷ readers) (g ∷ gens) h = ap suc (Counts-length _ readers gens h.3)

-- The slab represents the model; the counts are of what refers to each generation, where
-- `readers` has the number of readers of each; and each pending item is owned by one generation,
-- exactly once.
pub record Inv {ℓ} {T : Type ℓ} (s : RcuCslab T) (m : Model T) (readers : List ℕ) : Type ℓ where
  pub rep : Represents s.writer m
  pub counts : Counts 0 readers s.gens
  pub last : s.cur_gen + 1 ≡ length s.gens
  pub owned : Owned (λ j. owners j s.gens) m

module _ {ℓ} {T : Type ℓ} (s : RcuCslab T) (m : Model T) (readers : List ℕ)
    (inv : Inv s m readers) where
  put-Owned :
      (v : T) (free : List ℕ)
      → All (λ i. get_elem? m.slots i ≡ some vacant) free
      → Owned (λ j. owners j s.gens) (put_first v m free).0
  put-Owned v [] vacant_slots j = inv.owned j
  put-Owned v (i ∷ free) vacant_slots j = elim (dec_eq i j) [
    | inl (same, _) ↦
        let taken =
          get_elem?-set_self m.slots i (present v) (lt_of_get_elem? m.slots i vacant_slots.0) in
        subst (λ t. owners t s.gens ≡ is_pending (get_elem? (set m.slots i (present v)) t)) same
          (rw taken (inv.owned i ∙ ap is_pending vacant_slots.0))
    | inr (other, _) ↦
        inv.owned j ∙ ap is_pending (sym (get_elem?-set_ne m.slots i j (present v) other))
  ]

  -- An insertion does what the model says.
  pub insert-Inv :
      (v : T)
      → (s' : RcuCslab T) × (insert v s ≡ value (s', (put v m).1))
        × Inv s' (put v m).0 readers
        × (s'.gens ≡ s.gens)
        × (s'.cur_gen ≡ s.cur_gen)
  unfolding insert
  insert-Inv v =
      let (c', runs, rep') = insert-put v s.writer m inv.rep in
      (
        record s { writer = c' },
        rw runs refl,
        record {
          rep = rep';
          counts = inv.counts;
          last = inv.last;
          owned = put-Owned v m.free inv.rep.free_vacant;
        },
        refl,
        refl,
      )

  -- The current generation, and its number of readers.
  pub current_gen :
      (g : RcuCslabGen) × (r : ℕ) × (get_elem? s.gens s.cur_gen ≡ some g)
      × (get_elem? readers s.cur_gen ≡ some r)
      × (1 ≤ g.strong)
  current_gen =
      let (r, er) =
        get_elem?-of_lt readers s.cur_gen
          (omega (arith, inv.last, Counts-length 0 readers s.gens inv.counts)) in
      let (g, eg, pos) = strong-pos s.cur_gen 0 readers s.gens r inv.counts er (inr inv.last) in
      (g, r, eg, er, pos)

  times-append :
      (i j : ℕ) (is : List ℕ) → times j (is ++ i ∷ []) ≡ times j is + (if j == i then 1 else 0)
  times-append i j [] = omega arith
  times-append i j (k ∷ is) = omega (arith, times-append i j is)

  hide-Owned :
      (n i : ℕ) (v : T) (g : RcuCslabGen)
      → get_elem? m.slots i ≡ some (present v)
      → get_elem? s.gens n ≡ some g
      → Owned
          (λ j.
            owners j (set s.gens n (record g { pending_removes = g.pending_removes ++ i ∷ [] })))
          (hide i v m)
  hide-Owned n i v g slot eg j =
      let now =
        owners-set n s.gens (record g { pending_removes = g.pending_removes ++ i ∷ [] }) j eg in
      let added = times-append i j g.pending_removes in
      elim (dec_eq i j) [
        | inl (same, _) ↦
            let gone = get_elem?-set_self m.slots i (pending v) (lt_of_get_elem? m.slots i slot) in
            let before : owners j s.gens ≡ 0 =
              subst (λ t. owners t s.gens ≡ 0) same (inv.owned i ∙ ap is_pending slot) in
            let after : is_pending (get_elem? (hide i v m).slots j) ≡ 1 =
              subst (λ t. is_pending (get_elem? (hide i v m).slots t) ≡ 1) same
                (ap is_pending gone) in
            ground (arith, now, added, before, after, same)
        | inr (other, _) ↦
            let after = ap is_pending (get_elem?-set_ne m.slots i j (pending v) other) in
            ground (arith, now, added, inv.owned j, after, other)
      ]

  -- Marking a present item for removal in generation `n`, which is referred to, hides the item, and
  -- gives it to that generation.
  pub gen_mark_removed-Inv :
      (n i r : ℕ) (v : T) (g : RcuCslabGen)
      → get_elem? m.slots i ≡ some (present v)
      → get_elem? s.gens n ≡ some g
      → get_elem? readers n ≡ some r
      → 1 ≤ g.strong
      → (s' : RcuCslab T) × (gen_mark_removed n i s ≡ value s')
        × Inv s' (hide i v m) readers
        × (s'.gens ≡ set s.gens n (record g { pending_removes = g.pending_removes ++ i ∷ [] }))
        × (s'.cur_gen ≡ s.cur_gen)
  unfolding gen_mark_removed
  gen_mark_removed-Inv n i r v g slot eg er pos =
      let (c', runs, rep') = mark_removed-hide s.writer m inv.rep i v slot in
      let g' : RcuCslabGen = record g { pending_removes = g.pending_removes ++ i ∷ [] } in
      (
        record s { writer = c'; gens = set s.gens n g' },
        rw (runs, index-at s.gens n eg) refl,
        record {
          rep = rep';
          counts =
              subst (λ t. Counts 0 t (set s.gens n g')) (set-same readers n r er)
                (Counts-set n 0 r r readers g g' s.gens inv.counts er eg pos refl refl
                  (omega arith));
          last = inv.last ∙ sym (length-set s.gens n g');
          owned = hide-Owned n i v g slot eg;
        },
        refl,
        refl,
      )
    where
      set-same : (xs : List ℕ) (n x : ℕ) → get_elem? xs n ≡ some x → set xs n x ≡ xs
      set-same [] n x e = cc
      set-same (y ∷ xs) zero x e = let same : y ≡ x = cc in ap (λ (t : ℕ). t ∷ xs) (sym same)
      set-same (y ∷ xs) (suc n) x e = ap (λ t. y ∷ t) (set-same xs n x e)

  -- The same in the current generation.
  pub mark_removed-Inv :
      (i : ℕ) (v : T)
      → get_elem? m.slots i ≡ some (present v)
      → (s' : RcuCslab T) × (g : RcuCslabGen) × (get_elem? s.gens s.cur_gen ≡ some g)
        × (mark_removed i s ≡ value s')
        × Inv s' (hide i v m) readers
        × (s'.gens
            ≡ set s.gens s.cur_gen (record g { pending_removes = g.pending_removes ++ i ∷ [] }))
        × (s'.cur_gen ≡ s.cur_gen)
  unfolding mark_removed
  mark_removed-Inv i v slot =
      let (g, r, eg, er, pos) = current_gen in
      let (s', runs, inv', gens, cur) = gen_mark_removed-Inv s.cur_gen i r v g slot eg er pos in
      (s', g, eg, runs, inv', gens, cur)
