-- ===== src/Cslab/Rcu/Entries/Taken.antt =====
-- One round of `clear`: the entry that is found and removed leaves what `mark_removed` does.
use zpr_utils.Base.{
  ℕ, zero, suc, ◌+◌, ◌-◌, ◌≤◌, ◌≡◌, refl, sym, ap, ◌∙◌, subst, false, some, List, [], ◌∷◌, ◌++◌,
  ◌==◌, ltb, get_elem?, get_elem?-set_self, lt_of_get_elem?, length-set, set, arith,
}
use zpr_utils.Base.Exec.{value, index-at}
use zpr_utils.Cslab.Slab
use zpr_utils.Cslab.Slab.{Cslab}
use zpr_utils.Cslab.Model.{present, pending, Model, hide, is_present}
use zpr_utils.Cslab.Refines.Counts.{count-set}
use zpr_utils.Cslab.Refines.Mark.{mark_removed-hide}
use zpr_utils.Cslab.Iter.{next}
use zpr_utils.Cslab.Rcu.{
  RcuCslab, RcuCslabGen, add_ref, release, release_at, gen_mark_removed, mark_removed,
}
use zpr_utils.Cslab.Rcu.Invariant.{Inv, mark_removed-Inv, current_gen}
use zpr_utils.Cslab.Rcu.Releases.{release-shared}
use zpr_utils.Cslab.Rcu.Entries.{
  RcuIterMut, RcuEntry, at, yielded, next_entry, drop_entry, entry_remove, clear_loop,
}

set-set {ℓ} : {A : Type ℓ} (xs : List A) (n : ℕ) (a b : A) → set (set xs n a) n b ≡ set xs n b
set-set [] n a b = refl
set-set (x ∷ xs) zero a b = refl
set-set (x ∷ xs) (suc n) a b = ap (λ t. x ∷ t) (set-set xs n a b)

module _ {ℓ} {T : Type ℓ} where
  -- Dropping a reference to generation `n` that is not the last one.
  release_at-shared :
      (n : ℕ) (gens : List RcuCslabGen) (c : Cslab T) (g : RcuCslabGen)
      → get_elem? gens n ≡ some g
      → (g.strong == 1) ≡ false
      → release_at n gens c ≡ value (set gens n (record g { strong = g.strong - 1 }), c)
  unfolding release_at
  release_at-shared n [] c g e more = cc
  release_at-shared zero (h ∷ gens) c g e more =
      let same : g ≡ h = cc in
      subst (λ t. release (t ∷ gens) c ≡ value (record g { strong = g.strong - 1 } ∷ gens, c)) same
        (release-shared g gens c more)
  release_at-shared (suc n) (h ∷ gens) c g e more = rw (release_at-shared n gens c g e more) refl

module _ {ℓ} {T : Type ℓ} (s : RcuCslab T) (m : Model T) (readers : List ℕ) (inv : Inv s m readers)
    (i : ℕ) (v : T) (slot : get_elem? m.slots i ≡ some (present v)) where
  -- The slab with the writer `c`, and with the removal given to the current generation `g`.
  abbrev marked : RcuCslabGen → Cslab T → RcuCslab T
  marked g c = record s {
    writer = c;
    gens = set s.gens s.cur_gen (record g { pending_removes = g.pending_removes ++ i ∷ [] });
  }

  abbrev yield : RcuCslabGen → RcuCslab T
  yield g = record s { gens = set s.gens s.cur_gen (add_ref g) }

  abbrev entry : RcuEntry T
  entry = record { idx = i; item = v; entry_gen = s.cur_gen }

  -- The entry's reference to its generation is given up again.
  removed :
      (g : RcuCslabGen) (c : Cslab T)
      → get_elem? s.gens s.cur_gen ≡ some g
      → 1 ≤ g.strong
      → Slab.mark_removed i s.writer ≡ value c
      → entry_remove entry (yield g) ≡ value (marked g c)
  unfolding entry_remove gen_mark_removed drop_entry
  removed g c eg pos runs =
      let within = lt_of_get_elem? s.gens s.cur_gen eg in
      let g1 : RcuCslabGen = add_ref g in
      let g2 : RcuCslabGen = record g1 { pending_removes = g.pending_removes ++ i ∷ [] } in
      let gens1 : List RcuCslabGen = set s.gens s.cur_gen g1 in
      let gens2 : List RcuCslabGen = set gens1 s.cur_gen g2 in
      let found = index-at gens1 s.cur_gen (get_elem?-set_self s.gens s.cur_gen g1 within) in
      let found2 : get_elem? gens2 s.cur_gen ≡ some g2 =
        get_elem?-set_self gens1 s.cur_gen g2
          (omega (arith, within, length-set s.gens s.cur_gen g1)) in
      let more : (g.strong + 1 == 1) ≡ false = ground arith in
      let count : g.strong + 1 - 1 ≡ g.strong = omega arith in
      let dropped = release_at-shared s.cur_gen gens2 c g2 found2 more in
      let twice = set-set gens1 s.cur_gen g2 (record g2 { strong = g.strong + 1 - 1 }) in
      let once = set-set s.gens s.cur_gen g1 (record g2 { strong = g.strong + 1 - 1 }) in
      rw (runs, found, dropped, twice, once, count) refl

  -- What is left is what `mark_removed` leaves, with one item fewer, in a slab of the same size.
  pub take_entry :
      (s' : RcuCslab T) × (g : RcuCslabGen) × (get_elem? s.gens s.cur_gen ≡ some g)
      × (entry_remove entry (yield g) ≡ value s')
      × Inv s' (hide i v m) readers
      × (s'.writer.size ≡ s.writer.size)
      × (s'.writer.in_use + 1 ≡ s.writer.in_use)
      × (s'.cur_gen ≡ s.cur_gen)
  unfolding mark_removed gen_mark_removed
  take_entry =
      let (c, runs, rep) = mark_removed-hide s.writer m inv.rep i v slot in
      let (g, r, eg, er, pos) = current_gen s m readers inv in
      let (s1, g', eg', runs', inv', gens, cur) = mark_removed-Inv s m readers inv i v slot in
      let direct : mark_removed i s ≡ value (marked g c) =
        rw (runs, index-at s.gens s.cur_gen eg) refl in
      let same : s1 ≡ marked g c = cc in
      let before = count-set is_present m.slots i (present v) (pending v) slot in
      (
        marked g c,
        g,
        eg,
        removed g c eg pos runs,
        subst (λ t. Inv t (hide i v m) readers) same inv',
        sym rep.slots_len ∙ length-set m.slots i (pending v) ∙ inv.rep.slots_len,
        omega (arith, before, rep.in_use_count, inv.rep.in_use_count),
        refl,
      )

  -- A round of the loop that finds the entry.
  pub round-entry :
      (s' : RcuCslab T) (g : RcuCslabGen) (it it' : RcuIterMut) (fuel : ℕ)
      → get_elem? s.gens s.cur_gen ≡ some g
      → entry_remove entry (yield g) ≡ value s'
      → next (at it s) ≡ value (at it' s, some (i, v))
      → it'.remaining + 1 ≡ it.remaining
      → clear_loop (suc fuel) it s ≡ clear_loop fuel it' s'
  unfolding clear_loop next_entry yielded
  round-entry s' g it it' fuel eg runs found count =
      let enough : ltb it.remaining 1 ≡ false = ground arith in
      let left : it.remaining - 1 ≡ it'.remaining = omega arith in
      rw (found, enough, left, index-at s.gens s.cur_gen eg, runs) refl
