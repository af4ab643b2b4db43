-- ===== src/Cslab/Rcu/Sessions/Found.antt =====
-- What a pass has become when it has found an entry, or nothing.
use zpr_utils.Base.{
  ℕ, suc, ◌+◌, ◌-◌, ◌≤◌, ◌<◌, ◌≡◌, ◌≢◌, ◌⊎◌, inl, inr, refl, ap, subst, Bool-cases, Option, none,
  some, List, [], ◌∷◌, ltb, leb, false, length, get_elem?, set, arith,
}
use zpr_utils.Base.Exec.{Exec, value, index-at}
use zpr_utils.Cslab.Model.{Model, shown}
use zpr_utils.Cslab.Refines.Lookup.{shown_inv}
use zpr_utils.Cslab.Iter.Seen.{seen}
use zpr_utils.Cslab.Iter.Among.{Within, seen-Among}
use zpr_utils.Cslab.Iter.Forward.{between}
use zpr_utils.Cslab.Rcu.{RcuCslab, RcuCslabGen}
use zpr_utils.Cslab.Rcu.Invariant.{current_gen}
use zpr_utils.Cslab.Rcu.Handles.{referred, referred-Inv}
use zpr_utils.Cslab.Rcu.Entries.{RcuIterMut, RcuEntry, yielded}
use zpr_utils.Cslab.Rcu.Steps.{by_iter}
use zpr_utils.Cslab.Rcu.Runs.{referred-Protects}
use zpr_utils.Cslab.Rcu.Distinct.{Fresh, All-map, Counted-set}
use zpr_utils.Cslab.Rcu.Sessions.{Outside, Showing, Pass, Session, Next}

module _ {ℓ} {T : Type ℓ} (s : RcuCslab T) (m : Model T) (readers : List ℕ) (it : RcuIterMut)
    (xs : List (RcuEntry T)) (now : Session s m readers (by_iter it) xs) where
  -- What is found: nothing, or an entry, which is a reader more of the current generation.
  abbrev pub Finds : Exec (RcuIterMut × RcuCslab T × Option (RcuEntry T)) → Type ℓ
  Finds run =
      ((it' : RcuIterMut) × (run ≡ value (it', s, none)) × Next s m s readers (by_iter it') xs)
      ⊎ ((it' : RcuIterMut) × (s' : RcuCslab T) × (x : RcuEntry T) × (r : ℕ) × (run
            ≡ value (it', s', some x))
          × (get_elem? readers x.entry_gen ≡ some r)
          × Next s m s' (set readers x.entry_gen (suc r)) (by_iter it') (x ∷ xs))

  unfoldable moved : ℕ → ℕ → ℕ → RcuIterMut
  moved h t k = record { head = h; tail = t; remaining = k }

  -- Nothing is found.
  pub no_entry-Finds :
      (h t n : ℕ)
      → h + n ≡ t
      → t ≤ s.writer.size
      → it.remaining ≡ length (seen m n h)
      → seen m n h ≡ []
      → Finds (yielded it.remaining (between s.writer h t, none) s)
  unfolding yielded moved
  no_entry-Finds h t n e inside count none_left = inl (
    moved h t it.remaining,
    refl,
    record {
      model = m;
      session = record {
        inv = now.inv;
        showing = now.showing;
        distinct = now.distinct;
        counted = now.counted;
        lent = record {
          left = n;
          range = e;
          inside = inside;
          counts = count;
          of_current = now.lent.of_current;
          outside = All-map xs apart now.showing;
        };
      };
      protects = λ k i r v er le guarded. guarded;
      cur = omega arith;
    },
  )
    where
      apart : (x : RcuEntry T) → Showing m x → Outside h t x
      apart x e' = elim (Bool-cases (ltb x.idx h)) [
        | inl low ↦ inl (ground arith)
        | inr high ↦ elim (Bool-cases (leb t x.idx)) [
          | inl past ↦ inr (ground arith)
          | inr within ↦
              let (k, at_k) =
                seen-Among m n h x.idx x.item (ap shown e') (ground arith) (ground arith) in
              let empty : get_elem? {A = ℕ × T} [] k ≡ some (x.idx, x.item) =
                subst (λ ys. get_elem? ys k ≡ some (x.idx, x.item)) none_left at_k in
              cc
        ]
      ]

  -- Item `v` of slot `i` is found.
  module _ (h t n i : ℕ) (v : T) (e : h + n ≡ t) (low : it.head ≤ h) (high : t ≤ it.tail)
      (count : length (seen m n h) + 1 ≡ it.remaining) (within : Within m it.head it.tail (i, v))
      (outside : (i < h) ⊎ (t ≤ i)) where
    abbrev entry : RcuEntry T
    entry = record { idx = i; item = v; entry_gen = s.cur_gen }

    entry-Fresh : Fresh i xs
    entry-Fresh = All-map xs apart now.lent.outside
      where
        apart : (x : RcuEntry T) → Outside it.head it.tail x → x.idx ≢ i
        apart x (inl before) same = absurd (omega (arith, within.1, same))
        apart x (inr behind) same = absurd (omega (arith, within.2, same))

    entry-Pass :
        (g : RcuCslabGen)
        → Pass
            (referred s m readers now.inv s.cur_gen g)
            m
            (moved h t (it.remaining - 1))
            (entry ∷ xs)
    unfolding moved
    entry-Pass g = record {
      left = n;
      range = e;
      inside = omega (arith, now.lent.inside);
      counts = omega arith;
      of_current = (refl, now.lent.of_current);
      outside = (outside, All-map xs wider now.lent.outside);
    }
      where
        wider : (x : RcuEntry T) → Outside it.head it.tail x → Outside h t x
        wider x (inl before) = inl (omega arith)
        wider x (inr behind) = inr (omega arith)

    pub entry-Finds : Finds (yielded it.remaining (between s.writer h t, some (i, v)) s)
    unfolding yielded moved
    entry-Finds =
        let (g, r, eg, er, pos) = current_gen s m readers now.inv in
        let slot = shown_inv s.writer m now.inv.rep i (get_elem? m.slots i) v within.0 in
        let enough : ltb it.remaining 1 ≡ false = ground arith in
        let few = now.counted s.cur_gen r er in
        inr (
          moved h t (it.remaining - 1),
          referred s m readers now.inv s.cur_gen g,
          entry,
          r,
          rw (enough, index-at s.gens s.cur_gen eg) refl,
          er,
          record {
            model = m;
            session = record {
              inv = referred-Inv s m readers now.inv s.cur_gen r g er eg pos;
              showing = (slot, now.showing);
              distinct = (entry-Fresh, now.distinct);
              counted =
                  Counted-set readers xs (entry ∷ xs) s.cur_gen (suc r) now.counted
                    (λ k other. ground (arith, other)) (ground (arith, few));
              lent = entry-Pass g;
            };
            protects =
                referred-Protects s m readers now.inv s.cur_gen g
                  (referred s m readers now.inv s.cur_gen g) (set readers s.cur_gen (suc r)) eg
                  refl;
            cur = omega arith;
          },
        )
