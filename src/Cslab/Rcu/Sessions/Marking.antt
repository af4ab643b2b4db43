-- ===== src/Cslab/Rcu/Sessions/Marking.antt =====
-- That an entry can be removed at any time, whether its pass goes on or not.
use zpr_utils.Base.{
  ℕ, suc, ◌≤◌, ◌<◌, ◌≡◌, ◌≢◌, inl, inr, refl, sym, ◌∙◌, subst, some, List, [], ◌∷◌, ◌++◌,
  length-set, get_elem?, get_elem?-set_ne, set, All, arith,
}
use zpr_utils.Base.Exec.{value}
use zpr_utils.Cslab.Bitmap.{dec_eq}
use zpr_utils.Cslab.Model.{pending, Model, hide}
use zpr_utils.Cslab.Iter.Among.{lookup-hide_ne}
use zpr_utils.Cslab.Rcu.{RcuCslab, drop_reader}
use zpr_utils.Cslab.Rcu.Counts.{strong-pos}
use zpr_utils.Cslab.Rcu.Guards.{Guarded, Guarded-hide}
use zpr_utils.Cslab.Rcu.Invariant.{gen_mark_removed-Inv}
use zpr_utils.Cslab.Rcu.Entries.{RcuEntry, drop_entry, entry_remove}
use zpr_utils.Cslab.Rcu.Steps.{Borrow, free, by_iter, by_entries}
use zpr_utils.Cslab.Rcu.Distinct.{Fresh, All-map}
use zpr_utils.Cslab.Rcu.Sessions.{Outside, Showing, Lent, Session, Next}
use zpr_utils.Cslab.Rcu.Sessions.Keeping.{Pass-same, drop_reader-Next}
use zpr_utils.Cslab.Rcu.Sessions.Removing.{Beside, Newest, taken-Session, one_fewer}

module _ {ℓ} {T : Type ℓ} (s : RcuCslab T) (m : Model T) (readers : List ℕ)
    (before behind : List (RcuEntry T)) (x : RcuEntry T) where
  -- Its removal is given to its generation, and hides nothing else.
  hide-Lent :
      (b : Borrow) (s' : RcuCslab T)
      → s'.writer.size ≡ s.writer.size
      → s'.cur_gen ≡ s.cur_gen
      → Beside b x
      → Lent b s m readers (before ++ behind)
      → Lent b s' (hide x.idx x.item m) readers (before ++ behind)
  hide-Lent free s' size cur beside lent = lent
  hide-Lent (by_iter it) s' size cur beside lent =
      Pass-same s s' m (hide x.idx x.item m) it (before ++ behind) size cur
        (λ j low high. lookup-hide_ne m x.idx j x.item (apart j low high beside)) lent
    where
      apart : (j : ℕ) → it.head ≤ j → j < it.tail → Outside it.head it.tail x → x.idx ≢ j
      apart j low high (inl left) same = absurd (omega (arith, same))
      apart j low high (inr right) same = absurd (omega (arith, same))
  hide-Lent by_entries s' size cur beside lent = record {
    of_previous = All-map (before ++ behind) (λ y e. e ∙ sym cur) lent.of_previous;
    unread = subst (λ n. get_elem? readers n ≡ some 0) (sym cur) lent.unread;
  }

  hide-Showing :
      (ys : List (RcuEntry T))
      → Fresh x.idx ys
      → All (Showing m) ys
      → All (Showing (hide x.idx x.item m)) ys
  hide-Showing [] fresh showing = tt
  hide-Showing (y ∷ ys) (other, fresh) (shows, showing) = (
    get_elem?-set_ne m.slots x.idx y.idx (pending x.item) (λ e. other (sym e)) ∙ shows,
    hide-Showing ys fresh showing,
  )

  -- Removing the entry marks its item, and then drops it.
  pub entry_remove-Next :
      (b : Borrow) (r : ℕ)
      → Session s m readers b (before ++ x ∷ behind)
      → get_elem? readers x.entry_gen ≡ some (suc r)
      → (s' : RcuCslab T) × (entry_remove x s ≡ value s')
        × Next s m s' (set readers x.entry_gen r) b (before ++ behind)
  unfolding entry_remove drop_entry drop_reader
  entry_remove-Next b r now er =
      let (less, fresh, shows, beside, newest) = taken-Session s m readers before behind x b now in
      let (g, eg, pos) =
        strong-pos x.entry_gen 0 readers s.gens (suc r) now.inv.counts er (inl (omega arith)) in
      let (s1, runs1, inv1, gens1, cur1) =
        gen_mark_removed-Inv s m readers now.inv x.entry_gen x.idx (suc r) x.item g shows eg er
          pos in
      let size : s1.writer.size ≡ s.writer.size =
        sym inv1.rep.slots_len
        ∙ length-set m.slots x.idx (pending x.item)
        ∙ now.inv.rep.slots_len in
      let marked : Session s1 (hide x.idx x.item m) readers b (before ++ behind) = record {
        inv = inv1;
        showing = hide-Showing (before ++ behind) fresh less.showing;
        distinct = less.distinct;
        counted = less.counted;
        lent = hide-Lent b s1 size cur1 beside less.lent;
      } in
      let (s2, runs2, next) =
        drop_reader-Next s1 (hide x.idx x.item m) readers b (before ++ behind) marked x.entry_gen r
          er (one_fewer s m readers before behind x b r now er) in
      (
        s2,
        rw (runs1, runs2) refl,
        record {
          model = next.model;
          session = next.session;
          protects = λ n i q v e le guarded. next.protects n i q v e (omega (arith, cur1)) (
              subst (λ t. Guarded n i v (hide x.idx x.item m) t) (sym gens1)
                (Guarded-hide n i x.entry_gen x.idx v x.item m s.gens g shows eg
                  (upto newest n q e le) guarded));
          cur = omega (arith, cur1, next.cur);
        },
      )
    where
      upto :
          Newest s readers x.entry_gen
          → (n q : ℕ) → get_elem? (set readers x.entry_gen r) n ≡ some (suc q)
          → n ≤ s.cur_gen
          → n ≤ x.entry_gen
      upto newest n q e le = elim (dec_eq x.entry_gen n) [
        | inl (same, _) ↦ omega (arith, same)
        | inr (other, _) ↦ newest n q (sym (get_elem?-set_ne readers x.entry_gen n r other) ∙ e) le
      ]
