-- ===== src/Cslab/Iter/Drops.antt =====
-- cslab/src/lib.rs: the `Drop` of `CslabStorage`, which drops the items that a scan finds.
use zpr_utils.Base.{
  ℕ, zero, suc, ◌+◌, ◌≡◌, refl, sym, ap, ◌∙◌, Option, none, some, List, [], ◌∷◌, map, leb, true,
  length, arith,
}
use zpr_utils.Base.Exec.{Exec, value, ◌>>=◌}
use zpr_utils.Cslab.Storage.{CslabStorage}
use zpr_utils.Cslab.Slab.{Cslab}
use zpr_utils.Cslab.Model.{Slot, vacant, present, pending, Model, lookup, shown}
use zpr_utils.Cslab.Represents.{Represents}
use zpr_utils.Cslab.Iter.{iter_new}
use zpr_utils.Cslab.Iter.Seen.{seen, with_item}
use zpr_utils.Cslab.Iter.Among.{length-seen_le}
use zpr_utils.Cslab.Iter.Collect.{collect, collect-seen, seen-frontier, slots_of}

module _ {ℓ} {T : Type ℓ} where
  -- The items, in the order in which they are dropped; the memory is given back behind them.
  unfoldable pub storage_drop : CslabStorage T → Exec (List T)
  unfolding iter_new collect
  storage_drop storage = do
    it ← iter_new storage
    dropped ← collect (storage.size + 1) it
    value (map (λ x. x.1) dropped)

  -- The items of the slots that are present.
  abbrev pub presents : List (Slot T) → List T
  presents [] = []
  presents (vacant ∷ slots) = presents slots
  presents (present v ∷ slots) = v ∷ presents slots
  presents (pending v ∷ slots) = presents slots

  items-with_item :
      (i j : ℕ) (o : Option T) (xs ys : List (ℕ × T))
      → map (λ x. x.1) xs ≡ map (λ x. x.1) ys
      → map (λ x. x.1) (with_item i o xs) ≡ map (λ x. x.1) (with_item j o ys)
  items-with_item i j none xs ys e = e
  items-with_item i j (some v) xs ys e = ap (λ l. v ∷ l) e

  items-seen_tail :
      (free : List ℕ) (s : Slot T) (slots : List (Slot T)) (n i : ℕ)
      → map (λ x. x.1) (seen (slots_of free (s ∷ slots)) n (suc i))
        ≡ map (λ x. x.1) (seen (slots_of free slots) n i)
  unfolding seen
  items-seen_tail free s slots zero i = refl
  items-seen_tail free s slots (suc n) i =
      let next : suc i + 1 ≡ suc (i + 1) = omega arith in
      rw next (
        items-with_item (suc i) i (lookup (slots_of free slots) i) _ _
          (items-seen_tail free s slots n (i + 1)))

  -- A whole scan shows the present items.
  items-seen :
      (free : List ℕ) (slots : List (Slot T))
      → map (λ x. x.1) (seen (slots_of free slots) (length slots) 0) ≡ presents slots
  unfolding seen
  items-seen free [] = refl
  items-seen free (s ∷ slots) =
      by_slot s (items-seen_tail free s slots (length slots) 0 ∙ items-seen free slots)
    where
      by_slot :
          (t : Slot T)
          → map (λ x. x.1) (seen (slots_of free (s ∷ slots)) (length slots) 1) ≡ presents slots
          → map
              (λ x. x.1)
              (with_item 0 (shown (some t)) (seen (slots_of free (s ∷ slots)) (length slots) 1))
            ≡ presents (t ∷ slots)
      by_slot vacant e = e
      by_slot (present v) e = ap (λ l. v ∷ l) e
      by_slot (pending v) e = e

  -- The drop of the storage of a slab that represents a model drops the items of the present slots,
  -- each once, in the order of their indexes, and no others: what is pending is not dropped.
  pub storage_drop-presents :
      (c : Cslab T) (m : Model T)
      → Represents c m
      → storage_drop c.storage ≡ value (presents m.slots)
  unfolding storage_drop iter_new
  storage_drop-presents c m rep =
      let inside : leb c.frontier c.size ≡ true = let le = rep.frontier_le in ground arith in
      let all =
        collect-seen c m rep (seen m c.frontier 0) (c.size + 1) c.frontier 0 c.frontier
          rep.frontier_le (omega arith) refl
          (omega (arith, rep.frontier_le, length-seen_le m c.frontier 0)) in
      rw (inside, all)
        (ap value (ap (map (λ x. x.1)) (sym (seen-frontier c m rep)) ∙ items-seen m.free m.slots))
