-- ===== src/Cslab/Rcu/Entries/Clear.antt =====
-- What `clear` leaves: nothing that is shown.
use zpr_utils.Base.{
  ℕ, zero, suc, ◌+◌, ◌≤◌, ◌<◌, ◌≡◌, ◌≢◌, inl, inr, refl, sym, ap, ◌∙◌, subst, Option, Option-cases,
  none, some, List, [], ◌∷◌, ◌++◌, leb, true, length, get_elem?, arith,
}
use zpr_utils.Base.Exec.{Exec, value}
use zpr_utils.Cslab.Slab
use zpr_utils.Cslab.Slab.{Cslab}
use zpr_utils.Cslab.Bitmap.{dec_eq}
use zpr_utils.Cslab.Model
use zpr_utils.Cslab.Model.{Slot, vacant, present, pending, Model, lookup, shown, hide, is_present}
use zpr_utils.Cslab.Refines.Lookup.{shown_inv}
use zpr_utils.Cslab.Iter.{iter_new}
use zpr_utils.Cslab.Iter.Seen.{seen, first, rest}
use zpr_utils.Cslab.Iter.Forward.{between, next-seen}
use zpr_utils.Cslab.Iter.Among.{
  length-seen_le, Among, seen-Among, seen-shows, seen-cong, lookup-hide, lookup-hide_ne,
}
use zpr_utils.Cslab.Rcu.{RcuCslab, RcuCslabReader, schedule_finalization}
use zpr_utils.Cslab.Rcu.Owners.{SameOrDropped, Drops}
use zpr_utils.Cslab.Rcu.Invariant.{Inv}
use zpr_utils.Cslab.Rcu.Steps.{reader_of}
use zpr_utils.Cslab.Rcu.Schedules.{schedule_finalization-After}
use zpr_utils.Cslab.Rcu.Entries.{
  RcuIterMut, yielded, next_entry, iter_mut, clear_loop, clear, drop_iter_mut, len,
}
use zpr_utils.Cslab.Rcu.Entries.Taken.{take_entry, round-entry}

module _ {ℓ} {T : Type ℓ} where
  pub Drops-lookup : (m m' : Model T) → Drops m m' → (j : ℕ) → lookup m' j ≡ lookup m j
  Drops-lookup m m' drops j = by_slot (get_elem? m.slots j) (get_elem? m'.slots j) (drops j)
    where
      by_slot : (o o' : Option (Slot T)) → SameOrDropped o o' → shown o' ≡ shown o
      by_slot o o' (inl e) = ap shown e
      by_slot o o' (inr (v, gone, was)) = ap shown gone ∙ sym (ap shown was)

  count-none :
      (slots : List (Slot T))
      → ((j : ℕ) → shown (get_elem? slots j) ≡ none)
      → Model.count is_present slots ≡ 0
  count-none [] hidden = refl
  count-none (s ∷ slots) hidden = by_slot s (hidden 0) (count-none slots (λ j. hidden (suc j)))
    where
      by_slot :
          (t : Slot T)
          → shown (some t) ≡ none
          → Model.count is_present slots ≡ 0
          → is_present t + Model.count is_present slots ≡ 0
      by_slot vacant e zeros = omega (arith, zeros)
      by_slot (present v) e zeros = cc
      by_slot (pending v) e zeros = omega (arith, zeros)

  -- Everything that the model shows is among the items.
  abbrev Covers : Model T → List (ℕ × T) → Type ℓ
  Covers m xs = (j : ℕ) (u : T) → lookup m j ≡ some u → Among (j, u) xs

  Covers-none : (m : Model T) → Covers m [] → (j : ℕ) → lookup m j ≡ none
  Covers-none m covers j = elim (Option-cases (lookup m j)) [
    | inl e ↦ e
    | inr (u, e) ↦ let (k, at_k) = covers j u e in cc
  ]

  Covers-hide :
      (m : Model T) (i : ℕ) (v : T) (xs : List (ℕ × T))
      → get_elem? m.slots i ≡ some (present v)
      → Covers m ((i, v) ∷ xs)
      → Covers (hide i v m) xs
  Covers-hide m i v xs slot covers j u shows = elim (dec_eq i j) [
    | inl (same, _) ↦
        let gone : lookup (hide i v m) j ≡ none =
          subst (λ t. lookup (hide i v m) t ≡ none) same (lookup-hide m i v slot) in
        cc
    | inr (other, _) ↦
        let (k, at_k) = covers j u (sym (lookup-hide_ne m i j v other) ∙ shows) in
        behind k at_k other
  ]
    where
      behind : (k : ℕ) → get_elem? ((i, v) ∷ xs) k ≡ some (j, u) → i ≢ j → Among (j, u) xs
      behind zero e other = let same : i ≡ j = cc in absurd (other same)
      behind (suc k) e other = (k, e)

module _ {ℓ} {T : Type ℓ} (readers : List ℕ) where
  -- What the loop leaves of `s`.
  abbrev Empties : RcuCslab T → Exec (RcuCslab T) → Type ℓ
  Empties s run =
      (s' : RcuCslab T) × (m' : Model T) × (run ≡ value s')
      × Inv s' m' readers
      × ((j : ℕ) → lookup m' j ≡ none)
      × (s'.cur_gen ≡ s.cur_gen)

  loop-Empties :
      (xs : List (ℕ × T)) (fuel n h t : ℕ) (s : RcuCslab T) (m : Model T)
      → Inv s m readers
      → t ≤ s.writer.size
      → h + n ≡ t
      → seen m n h ≡ xs
      → Covers m xs
      → length xs < fuel
      → Empties s (clear_loop fuel (record { head = h; tail = t; remaining = s.writer.in_use }) s)
  unfolding clear_loop next_entry yielded
  loop-Empties xs zero n h t s m inv inside e all covers enough = absurd (omega arith)
  loop-Empties [] (suc fuel) n h t s m inv inside e all covers enough =
      let (n', h', e', runs, left, past) = next-seen s.writer m inv.rep t inside n h e in
      (s, m, rw (runs, all) refl, inv, Covers-none m covers, refl)
  loop-Empties ((i, v) ∷ xs) (suc fuel) n h t s m inv inside e all covers enough =
      let (n', h', e', runs, left, past) = next-seen s.writer m inv.rep t inside n h e in
      let slot =
        shown_inv s.writer m inv.rep i (get_elem? m.slots i) v (seen-shows m n h i v xs all) in
      let (s1, g, eg, taken, inv1, size, fewer, cur) = take_entry s m readers inv i v slot in
      let beyond : i < h' = rw all at past in
      let others : seen (hide i v m) n' h' ≡ xs =
        seen-cong m (hide i v m) n' h' (λ j le. lookup-hide_ne m i j v (less i j (omega arith)))
        ∙ left
        ∙ ap rest all in
      let (s2, m2, runs2, inv2, hidden, cur2) =
        loop-Empties xs fuel n' h' t s1 (hide i v m) inv1 (omega arith) e' others
          (Covers-hide m i v xs slot covers) (omega arith) in
      (
        s2,
        m2,
        round-entry s m readers inv i v slot s1 g
              (record { head = h; tail = t; remaining = s.writer.in_use })
              (record { head = h'; tail = t; remaining = s1.writer.in_use }) fuel eg taken
              (runs ∙ ap (λ ys. value (between s.writer h' t, first ys)) all) fewer
            ∙ runs2,
        inv2,
        hidden,
        cur2 ∙ cur,
      )
    where
      less : (a b : ℕ) → a < b → a ≢ b
      less a b lt same = absurd (omega arith)

module _ {ℓ} {T : Type ℓ} (s : RcuCslab T) (m : Model T) (readers : List ℕ)
    (inv : Inv s m readers) where
  pub iter_mut-runs :
      iter_mut s
      ≡ value (record { head = 0; tail = s.writer.frontier; remaining = s.writer.in_use })
  unfolding iter_mut iter_new
  iter_mut-runs =
      let le = inv.rep.frontier_le in
      let inside : leb s.writer.frontier s.writer.size ≡ true = ground arith in rw inside refl

  shown-Among : (n h : ℕ) → h + n ≡ s.writer.frontier → h ≡ 0 → Covers m (seen m n h)
  shown-Among n h e start j u shows =
      let slot = shown_inv s.writer m inv.rep j (get_elem? m.slots j) u shows in
      seen-Among m n h j u shows (omega arith) (omega (arith, inv.rep.frontier_above j u slot))

  clear-runs :
      (it : RcuIterMut) (s1 s2 : RcuCslab T) (r : RcuCslabReader)
      → iter_mut s ≡ value it
      → clear_loop (s.writer.size + 1) it s ≡ value s1
      → schedule_finalization s1 ≡ value (s2, r)
      → clear s ≡ value (s2, r)
  unfolding clear drop_iter_mut schedule_finalization
  clear-runs it s1 s2 r started looped runs = rw (started, looped) runs

  -- On an RCU slab that the invariant holds of, `clear` succeeds: no item is shown any more, the
  -- reader that is returned is the only one of a new generation, and the invariant holds again.
  pub clear-removes :
      (s' : RcuCslab T) × (m' : Model T) × (clear s ≡ value (s', reader_of (s.cur_gen + 1)))
      × Inv s' m' (readers ++ 1 ∷ [])
      × ((j : ℕ) → lookup m' j ≡ none)
      × (len s' ≡ 0)
  unfolding len Slab.len
  clear-removes =
      let le = inv.rep.frontier_le in
      let xs = seen m s.writer.frontier 0 in
      let (s1, m1, looped, inv1, hidden, cur) =
        loop-Empties readers xs (s.writer.size + 1) s.writer.frontier 0 s.writer.frontier s m inv le
          (omega arith) refl (shown-Among s.writer.frontier 0 (omega arith) refl)
          (omega (arith, length-seen_le m s.writer.frontier 0)) in
      let (s2, runs, left, gone) = schedule_finalization-After s1 m1 readers inv1 in
      let none_left : (j : ℕ) → lookup left.model j ≡ none =
        λ j. Drops-lookup m1 left.model gone j ∙ hidden j in
      (
        s2,
        left.model,
        clear-runs _ s1 s2 (reader_of (s.cur_gen + 1)) iter_mut-runs looped (rw cur at runs),
        left.inv,
        none_left,
        left.inv.rep.in_use_count ∙ count-none left.model.slots none_left,
      )
