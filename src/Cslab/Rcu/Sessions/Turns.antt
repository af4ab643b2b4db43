-- ===== src/Cslab/Rcu/Sessions/Turns.antt =====
-- The beginning and the end of a pass.
use zpr_utils.Base.{
  ℕ, zero, suc, ◌+◌, ◌<◌, ◌≡◌, inl, inr, refl, sym, ap, ◌∙◌, some, List, [], ◌∷◌, ◌++◌, length,
  get_elem?, arith,
}
use zpr_utils.Base.Exec.{value}
use zpr_utils.Cslab.Slab
use zpr_utils.Cslab.Bitmap.{dec_eq}
use zpr_utils.Cslab.Model.{Model}
use zpr_utils.Cslab.Iter.Seen.{seen}
use zpr_utils.Cslab.Iter.Collect.{collect-iter, seen-frontier}
use zpr_utils.Cslab.Rcu.{RcuCslab}
use zpr_utils.Cslab.Rcu.Invariant.{Inv, Counts-length}
use zpr_utils.Cslab.Rcu.Entries.{RcuIterMut, RcuEntry, iter_mut, drop_iter_mut}
use zpr_utils.Cslab.Rcu.Entries.Clear.{iter_mut-runs}
use zpr_utils.Cslab.Rcu.Steps.{by_iter, by_entries}
use zpr_utils.Cslab.Rcu.Schedules.{advance_generation-After}
use zpr_utils.Cslab.Rcu.Distinct.{All-map, entries_of-others}
use zpr_utils.Cslab.Rcu.Sessions.{Counted, Session, Next}
use zpr_utils.Cslab.Rcu.Sessions.Keeping.{Drops-Showing}

before_end :
    (readers : List ℕ) (n q : ℕ)
    → get_elem? (readers ++ 0 ∷ []) n ≡ some q
    → n < length readers
    → get_elem? readers n ≡ some q
before_end [] n q e lt = absurd (omega arith)
before_end (r ∷ readers) zero q e lt = e
before_end (r ∷ readers) (suc n) q e lt = before_end readers n q e (omega arith)

at_end : (readers : List ℕ) (n : ℕ) → n ≡ length readers → get_elem? (readers ++ 0 ∷ []) n ≡ some 0
at_end [] zero e = refl
at_end [] (suc n) e = absurd (omega arith)
at_end (r ∷ readers) zero e = absurd (omega arith)
at_end (r ∷ readers) (suc n) e = at_end readers n (omega arith)

module _ {ℓ} {T : Type ℓ} (s : RcuCslab T) (m : Model T) (readers : List ℕ) where
  -- A pass has all that is shown before it.
  pub iter_mut-Next :
      Inv s m readers
      → (it : RcuIterMut) × (iter_mut s ≡ value it) × Next s m s readers (by_iter it) []
  unfolding Slab.len
  iter_mut-Next inv =
      let (it, starts, collects, shown, counts) = collect-iter s.writer m inv.rep in
      let all : seen m s.writer.size 0 ≡ seen m s.writer.frontier 0 =
        ap (λ n. seen m n 0) (sym inv.rep.slots_len) ∙ seen-frontier s.writer m inv.rep in
      (
        record { head = 0; tail = s.writer.frontier; remaining = s.writer.in_use },
        iter_mut-runs s m readers inv,
        record {
          model = m;
          session = record {
            inv = inv;
            showing = tt;
            distinct = tt;
            counted = λ n r e. omega arith;
            lent = record {
              left = s.writer.frontier;
              range = omega arith;
              inside = inv.rep.frontier_le;
              counts = sym shown ∙ ap length all;
              of_current = tt;
              outside = tt;
            };
          };
          protects = λ n i r v e le guarded. guarded;
          cur = omega arith;
        },
      )

  -- The drop of a pass begins a generation that nobody reads.
  pub drop_iter_mut-Next :
      (it : RcuIterMut) (xs : List (RcuEntry T))
      → Session s m readers (by_iter it) xs
      → (s' : RcuCslab T) × (drop_iter_mut s ≡ value s')
        × Next s m s' (readers ++ 0 ∷ []) by_entries xs
  unfolding drop_iter_mut
  drop_iter_mut-Next it xs now =
      let (s', runs, left, drops, cur) = advance_generation-After s m readers now.inv in
      let long : s.cur_gen + 1 ≡ length readers =
        now.inv.last ∙ sym (Counts-length 0 readers s.gens now.inv.counts) in
      (
        s',
        runs,
        record {
          model = left.model;
          session = record {
            inv = left.inv;
            showing = Drops-Showing m left.model xs drops now.showing;
            distinct = now.distinct;
            counted = counted long;
            lent = record {
              of_previous = All-map xs (λ x e. ap (λ n. n + 1) e ∙ sym cur) now.lent.of_current;
              unread = at_end readers s'.cur_gen (cur ∙ long);
            };
          };
          protects = left.protects;
          cur = left.cur;
        },
      )
    where
      counted : s.cur_gen + 1 ≡ length readers → Counted (readers ++ 0 ∷ []) xs
      counted long n r e = elim (dec_eq s.cur_gen n) [
        | inl (same, _) ↦ now.counted n r (before_end readers n r e (omega (arith, long, same)))
        | inr (other, _) ↦ omega (arith, entries_of-others n s.cur_gen xs other now.lent.of_current)
      ]
