-- ===== src/Cslab/Rcu/Sessions/Finds.antt =====
-- What a pass finds at either end: an entry that no other entry is of, or that nothing is left.
use zpr_utils.Base.{
  ℕ, ◌+◌, ◌≤◌, ◌<◌, ◌≡◌, inl, inr, refl, sym, ap, ◌∙◌, subst, Option, none, some, List, [], ◌∷◌,
  length, get_last?, All, arith,
}
use zpr_utils.Base.Exec.{value}
use zpr_utils.Cslab.Model.{Model}
use zpr_utils.Cslab.Iter.{next, next_back}
use zpr_utils.Cslab.Iter.Seen.{seen, first, rest, front}
use zpr_utils.Cslab.Iter.Among.{Within, seen-Within}
use zpr_utils.Cslab.Iter.Forward.{between, next-seen}
use zpr_utils.Cslab.Iter.Backward.{next_back-seen}
use zpr_utils.Cslab.Rcu.{RcuCslab}
use zpr_utils.Cslab.Rcu.Entries.{RcuIterMut, RcuEntry, yielded, next_entry, next_back_entry}
use zpr_utils.Cslab.Rcu.Steps.{by_iter, End, at_front, at_back, take_entry_at}
use zpr_utils.Cslab.Rcu.Sessions.{Session}
use zpr_utils.Cslab.Rcu.Sessions.Found.{Finds, no_entry-Finds, entry-Finds}

-- The last of some items is one of them, and there is one fewer before it.
last_of {ℓ κ} :
    {T : Type ℓ} (P : ℕ × T → Type κ) (y : ℕ × T) (ys : List (ℕ × T))
    → All P (y ∷ ys)
    → (z : ℕ × T) × (get_last? (y ∷ ys) ≡ some z)
      × P z
      × (length (front (y ∷ ys)) + 1 ≡ length (y ∷ ys))
last_of P y [] all = (y, refl, all.0, refl)
last_of P y (y' ∷ ys) all =
    let (z, last, p, fewer) = last_of P y' ys all.1 in (z, last, p, omega (arith, fewer))

module _ {ℓ} {T : Type ℓ} (s : RcuCslab T) (m : Model T) (readers : List ℕ) (it : RcuIterMut)
    (xs : List (RcuEntry T)) (now : Session s m readers (by_iter it) xs) where
  front_run :
      (h t : ℕ) (o : Option (ℕ × T))
      → next (between s.writer it.head it.tail) ≡ value (between s.writer h t, o)
      → next_entry it s ≡ yielded it.remaining (between s.writer h t, o) s
  unfolding next_entry
  front_run h t o runs = rw runs refl

  back_run :
      (h t : ℕ) (o : Option (ℕ × T))
      → next_back (between s.writer it.head it.tail) ≡ value (between s.writer h t, o)
      → next_back_entry it s ≡ yielded it.remaining (between s.writer h t, o) s
  unfolding next_back_entry
  back_run h t o runs = rw runs refl

  from_front :
      (ys : List (ℕ × T))
      → seen m now.lent.left it.head ≡ ys
      → Finds s m readers it xs now (next_entry it s)
  from_front [] all =
      let (n, h, e, runs, others, past) =
        next-seen s.writer m now.inv.rep it.tail now.lent.inside now.lent.left it.head
          now.lent.range in
      let none_left : seen m n h ≡ [] = others ∙ ap rest all in
      let run =
        front_run h it.tail none
          (runs ∙ ap (λ ys. value (between s.writer h it.tail, first ys)) all) in
      subst (Finds s m readers it xs now) (sym run) (
        no_entry-Finds s m readers it xs now h it.tail n e now.lent.inside
          (now.lent.counts ∙ ap length all ∙ sym (ap length none_left)) none_left)
  from_front ((i, v) ∷ ys) all =
      let (n, h, e, runs, others, past) =
        next-seen s.writer m now.inv.rep it.tail now.lent.inside now.lent.left it.head
          now.lent.range in
      let left : seen m n h ≡ ys = others ∙ ap rest all in
      let run =
        front_run h it.tail (some (i, v))
          (runs ∙ ap (λ ys. value (between s.writer h it.tail, first ys)) all) in
      let found =
        subst (All (Within m it.head it.tail)) all
          (seen-Within m now.lent.left it.head it.tail now.lent.range) in
      let beyond : i < h = rw all at past in
      let count = now.lent.counts ∙ ap length all in
      let fewer = ap length left in
      subst (Finds s m readers it xs now) (sym run) (
        entry-Finds s m readers it xs now h it.tail n i v e (omega (arith, found.0.1)) (omega arith)
          (omega (arith, count, fewer)) found.0 (inl beyond))

  from_back :
      (ys : List (ℕ × T))
      → seen m now.lent.left it.head ≡ ys
      → Finds s m readers it xs now (next_back_entry it s)
  from_back [] all =
      let (n, t, e, runs, others, before, fewer) =
        next_back-seen s.writer m now.inv.rep it.head now.lent.left it.tail now.lent.range
          now.lent.inside in
      let none_left : seen m n it.head ≡ [] = others ∙ ap front all in
      let run =
        back_run it.head t none
          (runs ∙ ap (λ ys. value (between s.writer it.head t, get_last? ys)) all) in
      subst (Finds s m readers it xs now) (sym run) (
        no_entry-Finds s m readers it xs now it.head t n e
          (omega (arith, now.lent.inside, now.lent.range))
          (now.lent.counts ∙ ap length all ∙ sym (ap length none_left)) none_left)
  from_back (y ∷ ys) all =
      let (n, t, e, runs, others, before, fewer) =
        next_back-seen s.writer m now.inv.rep it.head now.lent.left it.tail now.lent.range
          now.lent.inside in
      let found =
        subst (All (Within m it.head it.tail)) all
          (seen-Within m now.lent.left it.head it.tail now.lent.range) in
      let ((i, v), last, within, shorter) = last_of (Within m it.head it.tail) y ys found in
      let named : get_last? (seen m now.lent.left it.head) ≡ some (i, v) =
        ap get_last? all ∙ last in
      let run =
        back_run it.head t (some (i, v))
          (runs ∙ ap (λ o. value (between s.writer it.head t, o)) named) in
      let behind : t ≤ i = rw named at before in
      let count = now.lent.counts ∙ ap length all in
      let left = ap length (others ∙ ap front all) in
      subst (Finds s m readers it xs now) (sym run) (
        entry-Finds s m readers it xs now it.head t n i v e (omega arith)
          (omega (arith, now.lent.range)) (omega (arith, count, left, shorter)) within (inr behind))

  -- A pass finds an entry or none at either end, without a panic.
  pub take_entry_at-Finds : (end : End) → Finds s m readers it xs now (take_entry_at end it s)
  take_entry_at-Finds at_front = from_front (seen m now.lent.left it.head) refl
  take_entry_at-Finds at_back = from_back (seen m now.lent.left it.head) refl
