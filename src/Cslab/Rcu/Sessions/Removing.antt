-- ===== src/Cslab/Rcu/Sessions/Removing.antt =====
-- That an entry can be dropped at any time, whether its pass goes on or not.
use zpr_utils.Base.{
  ℕ, suc, ◌+◌, ◌≤◌, ◌≡◌, inl, inr, sym, ◌∙◌, subst, some, List, [], ◌∷◌, ◌++◌, get_elem?, set,
  arith,
}
use zpr_utils.Base.Exec.{value}
use zpr_utils.Cslab.Bitmap.{dec_eq}
use zpr_utils.Cslab.Model.{Model}
use zpr_utils.Cslab.Rcu.{RcuCslab, drop_reader}
use zpr_utils.Cslab.Rcu.Entries.{RcuEntry, drop_entry}
use zpr_utils.Cslab.Rcu.Steps.{Borrow, free, by_iter, by_entries, entries_of}
use zpr_utils.Cslab.Rcu.Distinct.{Fresh, Distinct-taken, All-taken, entries_of-taken}
use zpr_utils.Cslab.Rcu.Sessions.{Outside, Showing, Lent, Session, Next}
use zpr_utils.Cslab.Rcu.Sessions.Keeping.{drop_reader-Next}

module _ {ℓ} {T : Type ℓ} where
  -- No pass still has the entry before it.
  abbrev pub Beside : Borrow → RcuEntry T → Type 0
  Beside free x = Unit
  Beside (by_iter it) x = Outside it.head it.tail x
  Beside by_entries x = Unit

  -- No later generation has a reader.
  abbrev pub Newest : RcuCslab T → List ℕ → ℕ → Type 0
  Newest s readers k = (n q : ℕ) → get_elem? readers n ≡ some (suc q) → n ≤ s.cur_gen → n ≤ k

  pub not-empty :
      (before behind : List (RcuEntry T)) (x : RcuEntry T) → ¬ (before ++ x ∷ behind ≡ [])
  not-empty [] behind x e = cc
  not-empty (y ∷ before) behind x e = cc

  module _ (s : RcuCslab T) (m : Model T) (readers : List ℕ) (before behind : List (RcuEntry T))
      (x : RcuEntry T) where
    Lent-taken :
        (b : Borrow)
        → Lent b s m readers (before ++ x ∷ behind)
        → Lent b s m readers (before ++ behind) × Beside b x × Newest s readers x.entry_gen
    Lent-taken free lent = absurd (not-empty before behind x lent)
    Lent-taken (by_iter it) lent =
        let (current, others) =
          All-taken (λ y. y.entry_gen ≡ s.cur_gen) before behind x lent.of_current in
        let (outside, others') = All-taken (Outside it.head it.tail) before behind x lent.outside in
        (
          record {
            left = lent.left;
            range = lent.range;
            inside = lent.inside;
            counts = lent.counts;
            of_current = others;
            outside = others';
          },
          outside,
          λ n q e le. omega arith,
        )
    Lent-taken by_entries lent =
        let (previous, others) =
          All-taken (λ y. y.entry_gen + 1 ≡ s.cur_gen) before behind x lent.of_previous in
        (
          record { of_previous = others; unread = lent.unread },
          tt,
          λ n q e le. older n q e le previous lent.unread,
        )
      where
        older :
            (n q : ℕ)
            → get_elem? readers n ≡ some (suc q)
            → n ≤ s.cur_gen
            → x.entry_gen + 1 ≡ s.cur_gen
            → get_elem? readers s.cur_gen ≡ some 0
            → n ≤ x.entry_gen
        older n q e le previous unread = elim (dec_eq s.cur_gen n) [
          | inl (same, _) ↦
              let read : get_elem? readers n ≡ some 0 =
                subst (λ t. get_elem? readers t ≡ some 0) same unread in
              let zeros : some 0 ≡ some (suc q) = sym read ∙ e in cc
          | inr (other, _) ↦ ground (arith, le, previous, other)
        ]

    -- An entry is left out, and still counted as a reader.
    pub taken-Session :
        (b : Borrow)
        → Session s m readers b (before ++ x ∷ behind)
        → Session s m readers b (before ++ behind)
          × Fresh x.idx (before ++ behind)
          × Showing m x
          × Beside b x
          × Newest s readers x.entry_gen
    taken-Session b now =
        let (shows, showing) = All-taken (Showing m) before behind x now.showing in
        let (fresh, distinct) = Distinct-taken before behind x now.distinct in
        let (lent, beside, newest) = Lent-taken b now.lent in
        (
          record {
            inv = now.inv;
            showing = showing;
            distinct = distinct;
            counted = λ n r e. omega (arith, now.counted n r e, entries_of-taken n before behind x);
            lent = lent;
          },
          fresh,
          shows,
          beside,
          newest,
        )

    pub one_fewer :
        (b : Borrow) (r : ℕ)
        → Session s m readers b (before ++ x ∷ behind)
        → get_elem? readers x.entry_gen ≡ some (suc r)
        → entries_of x.entry_gen (before ++ behind) ≤ r
    one_fewer b r now er =
        let all = now.counted x.entry_gen (suc r) er in
        let split = entries_of-taken x.entry_gen before behind x in ground (arith, all, split)

    -- Dropping the entry is dropping a reader.
    pub drop_entry-Next :
        (b : Borrow) (r : ℕ)
        → Session s m readers b (before ++ x ∷ behind)
        → get_elem? readers x.entry_gen ≡ some (suc r)
        → (s' : RcuCslab T) × (drop_entry x s ≡ value s')
          × Next s m s' (set readers x.entry_gen r) b (before ++ behind)
    unfolding drop_entry drop_reader
    drop_entry-Next b r now er =
        drop_reader-Next s m readers b (before ++ behind) (taken-Session b now).0 x.entry_gen r er
          (one_fewer b r now er)
