-- ===== src/Cslab/Iter/Collect.antt =====
-- A whole pass over a slab, as a `for` loop or `collect` makes it.
use zpr_utils.Base.{
  ℕ, zero, suc, ◌+◌, ◌-◌, ◌≤◌, ◌<◌, ◌≡◌, inl, inr, refl, sym, ap, ◌∙◌, true, Option, Option-cases,
  none, some, List, [], ◌∷◌, leb, length, get_elem?, arith,
}
use zpr_utils.Base.Exec.{Exec, value, undefined, ◌>>=◌}
use zpr_utils.Cslab.Slab.{Cslab, len}
use zpr_utils.Cslab.Model
use zpr_utils.Cslab.Model.{Slot, vacant, present, pending, Model, lookup, shown, is_present}
use zpr_utils.Cslab.Represents.{Represents}
use zpr_utils.Cslab.Refines.Counts.{count-le, is_present-le}
use zpr_utils.Cslab.Iter.{Iter, ExclIter, iter_new, iter, count, next}
use zpr_utils.Cslab.Iter.Forward.{between, next-seen}
use zpr_utils.Cslab.Iter.Seen.{seen, rest, with_item, seen-skip_back}

module _ {ℓ} {T : Type ℓ} where
  -- Calls of `next` until it returns nothing, on fuel; to run out of it counts as undefined.
  unfoldable pub collect : ℕ → Iter T → Exec (List (ℕ × T))
  collect zero it = undefined
  collect (suc fuel) it = do
    r ← next it
    elim r.1 [ none ↦ value [] | some x ↦ do xs ← collect fuel r.0; value (x ∷ xs) ]

  length-with_item :
      (i j : ℕ) (o : Option T) (xs ys : List (ℕ × T))
      → length xs ≡ length ys
      → length (with_item i o xs) ≡ length (with_item j o ys)
  length-with_item i j none xs ys e = e
  length-with_item i j (some v) xs ys e = ap suc e

  abbrev pub slots_of : List ℕ → List (Slot T) → Model T
  slots_of free slots = record { slots = slots; free = free }

  length-seen_tail :
      (free : List ℕ) (s : Slot T) (slots : List (Slot T)) (n i : ℕ)
      → length (seen (slots_of free (s ∷ slots)) n (suc i))
        ≡ length (seen (slots_of free slots) n i)
  unfolding seen
  length-seen_tail free s slots zero i = refl
  length-seen_tail free s slots (suc n) i =
      let next : suc i + 1 ≡ suc (i + 1) = omega arith in
      rw next (
        length-with_item (suc i) i (lookup (slots_of free slots) i) _ _
          (length-seen_tail free s slots n (i + 1)))

  -- As many items are shown as slots are present.
  length-seen :
      (free : List ℕ) (slots : List (Slot T))
      → length (seen (slots_of free slots) (length slots) 0) ≡ Model.count is_present slots
  unfolding seen
  length-seen free [] = refl
  length-seen free (s ∷ slots) =
      by_slot s (length-seen_tail free s slots (length slots) 0 ∙ length-seen free slots)
    where
      by_slot :
          (t : Slot T)
          → length (seen (slots_of free (s ∷ slots)) (length slots) 1)
            ≡ Model.count is_present slots
          → length
              (with_item 0 (shown (some t)) (seen (slots_of free (s ∷ slots)) (length slots) 1))
            ≡ is_present t + Model.count is_present slots
      by_slot vacant e = omega (arith, e)
      by_slot (present v) e = omega (arith, e)
      by_slot (pending v) e = omega (arith, e)

module _ {ℓ} {T : Type ℓ} (c : Cslab T) (m : Model T) (rep : Represents c m) where
  pub collect-seen :
      (xs : List (ℕ × T)) (fuel n h t : ℕ)
      → t ≤ c.size
      → h + n ≡ t
      → seen m n h ≡ xs
      → length xs < fuel
      → collect fuel (between c h t) ≡ value xs
  unfolding collect
  collect-seen xs zero n h t inside e all enough = absurd (omega arith)
  collect-seen [] (suc fuel) n h t inside e all enough =
      let (n', h', e', runs, left, past) = next-seen c m rep t inside n h e in rw (runs, all) refl
  collect-seen (x ∷ xs) (suc fuel) n h t inside e all enough =
      let (n', h', e', runs, left, past) = next-seen c m rep t inside n h e in
      rw (runs, all, collect-seen xs fuel n' h' t inside e' (left ∙ ap rest all) (omega arith)) refl

  -- Nothing is shown from the frontier on.
  pub seen-frontier : seen m (length m.slots) 0 ≡ seen m c.frontier 0
  seen-frontier =
      let le = rep.frontier_le in
      let slots = rep.slots_len in
      seen-skip_back m c.frontier (length m.slots - c.frontier) (length m.slots) 0 (omega arith)
        (λ j h. absent (0 + c.frontier + j) (omega arith))
    where
      hidden :
          (i : ℕ) (s : Slot T)
          → get_elem? m.slots i ≡ some s
          → c.frontier ≤ i
          → shown (some s) ≡ none
      hidden i vacant e high = refl
      hidden i (present v) e high = absurd (omega (arith, rep.frontier_above i v e))
      hidden i (pending v) e high = refl

      absent : (i : ℕ) → c.frontier ≤ i → lookup m i ≡ none
      absent i high = elim (Option-cases (get_elem? m.slots i)) [
        | inl e ↦ ap shown e
        | inr (s, e) ↦ ap shown e ∙ hidden i s e high
      ]

  -- A pass over a slab that represents a model yields exactly the items that the model shows, in
  -- the order of their indexes, and as many as `len` and the iterator's `count` say.
  pub collect-iter :
      (it : ExclIter T) × (iter c ≡ value it)
      × (collect (c.size + 1) it.iter ≡ value (seen m c.size 0))
      × (length (seen m c.size 0) ≡ len c)
      × (count it ≡ len c)
  unfolding iter iter_new count
  collect-iter =
      let le = rep.frontier_le in
      let slots = rep.slots_len in
      let test : leb c.frontier c.size ≡ true = ground arith in
      let shown : length (seen m (length m.slots) 0) ≡ Model.count is_present m.slots =
        length-seen m.free m.slots in
      let few = count-le is_present m.slots is_present-le in
      let all : seen m c.frontier 0 ≡ seen m c.size 0 =
        sym seen-frontier ∙ ap (λ n. seen m n 0) slots in
      let sized : length (seen m c.size 0) ≡ c.in_use =
        ap (λ n. length (seen m n 0)) (sym slots) ∙ shown ∙ sym rep.in_use_count in
      (
        record { iter = between c 0 c.frontier; in_use = c.in_use },
        rw test refl,
        collect-seen (seen m c.size 0) (c.size + 1) c.frontier 0 c.frontier le (omega arith) all
            (omega arith),
        unfold len in sized,
        unfold len in refl,
      )
