-- ===== src/Cslab/Rcu/Sessions/Keeping.antt =====
-- What a session keeps when readers come and go: finalization drops pending items only.
use zpr_utils.Base.{
  ℕ, suc, ◌≤◌, ◌<◌, ◌≡◌, ◌≢◌, inl, inr, refl, sym, ap, ◌∙◌, subst, none, some, List, [], ◌∷◌,
  length, get_elem?, get_elem?-set_ne, set, All, arith,
}
use zpr_utils.Base.Exec.{value}
use zpr_utils.Cslab.Model.{Slot, Model, lookup}
use zpr_utils.Cslab.Iter.Among.{seen-cong_within}
use zpr_utils.Cslab.Rcu.{RcuCslab, clone_reader, drop_reader}
use zpr_utils.Cslab.Rcu.Owners.{SameOrDropped, Drops}
use zpr_utils.Cslab.Rcu.Invariant.{Inv}
use zpr_utils.Cslab.Rcu.Entries.{RcuIterMut, RcuEntry}
use zpr_utils.Cslab.Rcu.Entries.Clear.{Drops-lookup}
use zpr_utils.Cslab.Rcu.Steps.{Borrow, free, by_iter, by_entries, entries_of, reader_of}
use zpr_utils.Cslab.Rcu.Runs.{After, clone_reader-After, drop_reader-After}
use zpr_utils.Cslab.Rcu.Distinct.{All-map, Counted-set}
use zpr_utils.Cslab.Rcu.Sessions.{Showing, Pass, Lent, Session, Next}

pub unread-set :
    (readers : List ℕ) (n k r r' : ℕ)
    → get_elem? readers k ≡ some (suc r)
    → get_elem? readers n ≡ some 0
    → get_elem? (set readers k r') n ≡ some 0
unread-set readers n k r r' er unread = get_elem?-set_ne readers k n r' other ∙ unread
  where
    other : k ≢ n
    other same =
        let read : get_elem? readers n ≡ some (suc r) =
          subst (λ t. get_elem? readers t ≡ some (suc r)) same er in
        let zeros : some 0 ≡ some (suc r) = sym unread ∙ read in cc

module _ {ℓ} {T : Type ℓ} where
  slots-length :
      (slots slots' : List (Slot T))
      → ((j : ℕ) → SameOrDropped (get_elem? slots j) (get_elem? slots' j))
      → length slots' ≡ length slots
  slots-length [] [] drops = refl
  slots-length [] (t ∷ slots') drops = appears (drops 0)
    where
      appears : SameOrDropped none (some t) → length (t ∷ slots') ≡ 0
      appears (inl e) = cc
      appears (inr (v, gone, was)) = cc
  slots-length (t ∷ slots) [] drops = vanishes (drops 0)
    where
      vanishes : SameOrDropped (some t) none → 0 ≡ length (t ∷ slots)
      vanishes (inl e) = cc
      vanishes (inr (v, gone, was)) = cc
  slots-length (t ∷ slots) (t' ∷ slots') drops =
      ap suc (slots-length slots slots' (λ j. drops (suc j)))

  pub Drops-size :
      (s s' : RcuCslab T) (m m' : Model T) (readers readers' : List ℕ)
      → Inv s m readers
      → Inv s' m' readers'
      → Drops m m'
      → s'.writer.size ≡ s.writer.size
  Drops-size s s' m m' readers readers' inv inv' drops =
      sym inv'.rep.slots_len ∙ slots-length m.slots m'.slots drops ∙ inv.rep.slots_len

  pub Drops-Showing :
      (m m' : Model T) (xs : List (RcuEntry T))
      → Drops m m'
      → All (Showing m) xs
      → All (Showing m') xs
  Drops-Showing m m' xs drops all = All-map xs (λ x e. kept x e (drops x.idx)) all
    where
      kept :
          (x : RcuEntry T)
          → Showing m x
          → SameOrDropped (get_elem? m.slots x.idx) (get_elem? m'.slots x.idx)
          → Showing m' x
      kept x e (inl same) = same ∙ e
      kept x e (inr (v, gone, was)) = cc

  pub Pass-same :
      (s s' : RcuCslab T) (m m' : Model T) (it : RcuIterMut) (xs : List (RcuEntry T))
      → s'.writer.size ≡ s.writer.size
      → s'.cur_gen ≡ s.cur_gen
      → ((j : ℕ) → it.head ≤ j → j < it.tail → lookup m' j ≡ lookup m j)
      → Pass s m it xs
      → Pass s' m' it xs
  Pass-same s s' m m' it xs size cur same pass = record {
    left = pass.left;
    range = pass.range;
    inside = omega (arith, size, pass.inside);
    counts =
        pass.counts
        ∙ ap length (
            sym (
              seen-cong_within m m' pass.left it.head
                (λ j le lt. same j le (omega (arith, pass.range)))));
    of_current = All-map xs (λ x e. e ∙ sym cur) pass.of_current;
    outside = pass.outside;
  }

  pub Lent-kept :
      (b : Borrow) (s s' : RcuCslab T) (m m' : Model T) (readers readers' : List ℕ)
      (xs : List (RcuEntry T))
      → s'.writer.size ≡ s.writer.size
      → s'.cur_gen ≡ s.cur_gen
      → Drops m m'
      → (get_elem? readers s.cur_gen ≡ some 0 → get_elem? readers' s.cur_gen ≡ some 0)
      → Lent b s m readers xs
      → Lent b s' m' readers' xs
  Lent-kept free s s' m m' readers readers' xs size cur drops unread lent = lent
  Lent-kept (by_iter it) s s' m m' readers readers' xs size cur drops unread lent =
      Pass-same s s' m m' it xs size cur (λ j le lt. Drops-lookup m m' drops j) lent
  Lent-kept by_entries s s' m m' readers readers' xs size cur drops unread lent = record {
    of_previous = All-map xs (λ x e. e ∙ sym cur) lent.of_previous;
    unread = subst (λ n. get_elem? readers' n ≡ some 0) (sym cur) (unread lent.unread);
  }

  pub free-Next :
      (s s' : RcuCslab T) (m : Model T) (readers : List ℕ)
      → After s m s' readers
      → Next s m s' readers free []
  free-Next s s' m readers left = record {
    model = left.model;
    session = record {
      inv = left.inv;
      showing = tt;
      distinct = tt;
      counted = λ n r e. omega arith;
      lent = refl;
    };
    protects = left.protects;
    cur = left.cur;
  }

  module _ (s : RcuCslab T) (m : Model T) (readers : List ℕ) (b : Borrow) (xs : List (RcuEntry T))
      (now : Session s m readers b xs) where
    -- A number of readers of a generation that has some is set, and pending items are dropped.
    counted-Next :
        (s' : RcuCslab T) (k r r' : ℕ)
        → get_elem? readers k ≡ some (suc r)
        → entries_of k xs ≤ r'
        → (left : After s m s' (set readers k r')) → Drops m left.model
        → s'.cur_gen ≡ s.cur_gen
        → Next s m s' (set readers k r') b xs
    counted-Next s' k r r' er few left drops cur =
        let size = Drops-size s s' m left.model readers (set readers k r') now.inv left.inv drops in
        record {
          model = left.model;
          session = record {
            inv = left.inv;
            showing = Drops-Showing m left.model xs drops now.showing;
            distinct = now.distinct;
            counted = Counted-set readers xs xs k r' now.counted (λ n other. omega arith) few;
            lent =
                Lent-kept b s s' m left.model readers (set readers k r') xs size cur drops
                  (unread-set readers s.cur_gen k r r' er) now.lent;
          };
          protects = left.protects;
          cur = left.cur;
        }

    pub clone_reader-Next :
        (k r : ℕ)
        → get_elem? readers k ≡ some (suc r)
        → entries_of k xs ≤ r
        → (s' : RcuCslab T) × (clone_reader (reader_of k) s ≡ value (s', reader_of k))
          × Next s m s' (set readers k (suc (suc r))) b xs
    clone_reader-Next k r er few =
        let (s', runs, left, drops, cur) = clone_reader-After s m readers now.inv k r er in
        (s', runs, counted-Next s' k r (suc (suc r)) er (omega arith) left drops cur)

    pub drop_reader-Next :
        (k r : ℕ)
        → get_elem? readers k ≡ some (suc r)
        → entries_of k xs ≤ r
        → (s' : RcuCslab T) × (drop_reader (reader_of k) s ≡ value s')
          × Next s m s' (set readers k r) b xs
    drop_reader-Next k r er few =
        let (s', runs, left, drops, cur) = drop_reader-After s m readers now.inv k r er in
        (s', runs, counted-Next s' k r r er few left drops cur)
