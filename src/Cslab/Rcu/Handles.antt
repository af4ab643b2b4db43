-- ===== src/Cslab/Rcu/Handles.antt =====
-- That the operations on readers and generations keep the invariant of an RCU slab.
use zpr_utils.Base.{
  ℕ, suc, ◌+◌, ◌≤◌, ◌≡◌, inl, refl, sym, ◌∙◌, subst, some, List, [], ◌∷◌, ◌++◌, length-set,
  get_elem?, set, arith,
}
use zpr_utils.Base.Exec.{value, index-at}
use zpr_utils.Cslab.Model.{Model}
use zpr_utils.Cslab.Rcu.{
  RcuCslabGen, RcuCslab, add_ref, reader, clone_reader, drop_reader, advance_generation,
}
use zpr_utils.Cslab.Rcu.Owners.{Drops}
use zpr_utils.Cslab.Rcu.Counts.{Counts, Counts-set, strong-pos, owners-set, Keeps}
use zpr_utils.Cslab.Rcu.Releases.{release_at-Released}
use zpr_utils.Cslab.Rcu.Advances.{
  extended, length-extended, owners-extended, last-unfollowed, Counts-extended,
  get_elem?-set_append, set_back,
}
use zpr_utils.Cslab.Rcu.Invariant.{Inv, current_gen}

module _ {ℓ} {T : Type ℓ} (s : RcuCslab T) (m : Model T) (readers : List ℕ)
    (inv : Inv s m readers) where
  -- A reader more of generation `n`.
  abbrev pub referred : ℕ → RcuCslabGen → RcuCslab T
  referred n g = record s { gens = set s.gens n (add_ref g) }

  pub referred-Inv :
      (n r : ℕ) (g : RcuCslabGen)
      → get_elem? readers n ≡ some r
      → get_elem? s.gens n ≡ some g
      → 1 ≤ g.strong
      → Inv (referred n g) m (set readers n (suc r))
  referred-Inv n r g er eg pos = record {
    rep = inv.rep;
    counts =
        Counts-set n 0 r (suc r) readers g (add_ref g) s.gens inv.counts er eg pos refl
          (omega arith) (omega arith);
    last = inv.last ∙ sym (length-set s.gens n (add_ref g));
    owned = λ j. omega (arith, owners-set n s.gens (add_ref g) j eg, inv.owned j);
  }

  -- A new reader is of the current generation.
  pub reader-Inv :
      (s' : RcuCslab T) × (r : ℕ) × (g : RcuCslabGen) × (get_elem? readers s.cur_gen ≡ some r)
      × (get_elem? s.gens s.cur_gen ≡ some g)
      × (reader s ≡ value (s', record { reader_gen = s.cur_gen }))
      × (s'.cur_gen ≡ s.cur_gen)
      × Inv s' m (set readers s.cur_gen (suc r))
      × (s'.gens ≡ set s.gens s.cur_gen (add_ref g))
  unfolding reader
  reader-Inv =
      let (g, r, eg, er, pos) = current_gen s m readers inv in
      (
        referred s.cur_gen g,
        r,
        g,
        er,
        eg,
        rw (index-at s.gens s.cur_gen eg) refl,
        refl,
        referred-Inv s.cur_gen r g er eg pos,
        refl,
      )

  -- A clone of a reader is of the same generation.
  pub clone_reader-Inv :
      (n r : ℕ)
      → get_elem? readers n ≡ some (suc r)
      → (s' : RcuCslab T) × (g : RcuCslabGen) × (get_elem? s.gens n ≡ some g)
        × (clone_reader (record { reader_gen = n }) s ≡ value (s', record { reader_gen = n }))
        × Inv s' m (set readers n (suc (suc r)))
        × (s'.gens ≡ set s.gens n (add_ref g))
        × (s'.cur_gen ≡ s.cur_gen)
  unfolding clone_reader
  clone_reader-Inv n r er =
      let (g, eg, pos) = strong-pos n 0 readers s.gens (suc r) inv.counts er (inl (omega arith)) in
      (
        referred n g,
        g,
        eg,
        rw (index-at s.gens n eg) refl,
        referred-Inv n (suc r) g er eg pos,
        refl,
        refl,
      )

  -- The drop of a reader finalizes pending removals at most, and none from a generation on that
  -- still has a reader.
  pub drop_reader-Inv :
      (n r : ℕ)
      → get_elem? readers n ≡ some (suc r)
      → (s' : RcuCslab T) × (m' : Model T) × (drop_reader (record { reader_gen = n }) s ≡ value s')
        × Inv s' m' (set readers n r)
        × Drops m m'
        × Keeps (set readers n r) s.gens s'.gens
        × (s'.cur_gen ≡ s.cur_gen)
  unfolding drop_reader
  drop_reader-Inv n r er =
      let (gens', c', m', runs, left) =
        release_at-Released n 0 r readers s.gens s.writer m (λ j. 0) inv.rep inv.counts
          (λ j. omega (arith, inv.owned j)) er in
      (
        record s { gens = gens'; writer = c' },
        m',
        rw runs refl,
        record {
          rep = left.rep;
          counts = left.counts;
          last = inv.last ∙ sym left.len;
          owned = λ j. omega (arith, left.owned j);
        },
        left.drops,
        left.keeps,
        refl,
      )

  -- A new generation, which the old one refers to while it has readers.
  pub advance_generation-Inv :
      (s' : RcuCslab T) × (m' : Model T) × (g : RcuCslabGen) × (get_elem? s.gens s.cur_gen ≡ some g)
      × (advance_generation s ≡ value s')
      × Inv s' m' (readers ++ 0 ∷ [])
      × Drops m m'
      × Keeps (readers ++ 0 ∷ []) (extended s.gens s.cur_gen g) s'.gens
      × (s'.cur_gen ≡ s.cur_gen + 1)
  unfolding advance_generation
  advance_generation-Inv =
      let (g, r, eg, er, pos) = current_gen s m readers inv in
      let alone = last-unfollowed 0 readers s.gens s.cur_gen g inv.counts inv.last eg in
      let (gens', c', m', runs, left) =
        release_at-Released s.cur_gen 0 r (set readers s.cur_gen (suc r) ++ 0 ∷ [])
          (extended s.gens s.cur_gen g) s.writer m (λ j. 0) inv.rep
          (Counts-extended 0 r readers s.gens s.cur_gen g inv.counts inv.last er eg)
          (λ j. omega (arith, owners-extended s.gens s.cur_gen g j eg, inv.owned j))
          (get_elem?-set_append readers (0 ∷ []) s.cur_gen r (suc r) er) in
      let back = set_back readers (0 ∷ []) s.cur_gen r (suc r) er in
      (
        record s { writer = c'; gens = gens'; cur_gen = s.cur_gen + 1 },
        m',
        g,
        eg,
        rw (index-at s.gens s.cur_gen eg, alone, runs) refl,
        record {
          rep = left.rep;
          counts = subst (λ t. Counts 0 t gens') back left.counts;
          last = omega (arith, inv.last, left.len, length-extended s.gens s.cur_gen g);
          owned = λ j. omega (arith, left.owned j);
        },
        left.drops,
        subst (λ t. Keeps t (extended s.gens s.cur_gen g) gens') back left.keeps,
        refl,
      )
