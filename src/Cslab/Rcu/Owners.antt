-- ===== src/Cslab/Rcu/Owners.antt =====
-- Which generation owns a pending removal, counted, and what finalizing a list of them does.
use zpr_utils.Base.{
  ℕ, ◌+◌, ◌≤◌, ◌≡◌, ◌⊎◌, inl, inr, refl, sym, ◌∙◌, subst, Option, none, some, List, [], ◌∷◌, ◌==◌,
  if◌then◌else◌, get_elem?, get_elem?-set_ne, get_elem?-set_self, lt_of_get_elem?, arith,
}
use zpr_utils.Base.Exec.{value}
use zpr_utils.Cslab.Slab.{Cslab}
use zpr_utils.Cslab.Bitmap.{dec_eq}
use zpr_utils.Cslab.Model.{Slot, vacant, present, pending, Model, drop_item}
use zpr_utils.Cslab.Represents.{Represents}
use zpr_utils.Cslab.Refines.Finalize.{finalize_remove-drop_item}
use zpr_utils.Cslab.Rcu.{RcuCslabGen, finalize_all}

-- How often `i` stands in a list, and in the pending removals of all generations.
abbrev pub times : ℕ → List ℕ → ℕ
times i [] = 0
times i (j ∷ js) = (if i == j then 1 else 0) + times i js

abbrev pub owners : ℕ → List RcuCslabGen → ℕ
owners i [] = 0
owners i (g ∷ gens) = times i g.pending_removes + owners i gens

module _ {ℓ} {T : Type ℓ} where
  abbrev pub is_pending : Option (Slot T) → ℕ
  is_pending none = 0
  is_pending (some vacant) = 0
  is_pending (some (present v)) = 0
  is_pending (some (pending v)) = 1

  is_pending-le : (o : Option (Slot T)) → is_pending o ≤ 1
  is_pending-le none = omega arith
  is_pending-le (some vacant) = omega arith
  is_pending-le (some (present v)) = omega arith
  is_pending-le (some (pending v)) = omega arith

  pub pending_inv : (o : Option (Slot T)) → is_pending o ≡ 1 → (v : T) × (o ≡ some (pending v))
  pending_inv none e = absurd (omega (arith, e))
  pending_inv (some vacant) e = absurd (omega (arith, e))
  pending_inv (some (present v)) e = absurd (omega (arith, e))
  pending_inv (some (pending v)) e = (v, refl)

  -- A slot is as it was, or its pending item was dropped.
  abbrev pub SameOrDropped : Option (Slot T) → Option (Slot T) → Type ℓ
  SameOrDropped o o' = (o' ≡ o) ⊎ ((v : T) × (o' ≡ some vacant) × (o ≡ some (pending v)))

  abbrev pub Drops : Model T → Model T → Type ℓ
  Drops m m' = (j : ℕ) → SameOrDropped (get_elem? m.slots j) (get_elem? m'.slots j)

  SameOrDropped-trans :
      (o o' o'' : Option (Slot T)) → SameOrDropped o o' → SameOrDropped o' o'' → SameOrDropped o o''
  SameOrDropped-trans o o' o'' (inl e) (inl e') = inl (e' ∙ e)
  SameOrDropped-trans o o' o'' (inl e) (inr (v, gone, p)) = inr (v, gone, sym e ∙ p)
  SameOrDropped-trans o o' o'' (inr (v, gone, p)) (inl e') = inr (v, e' ∙ gone, p)
  SameOrDropped-trans o o' o'' (inr (v, gone, p)) (inr (w, gone', q)) = inr (v, gone', p)

  pub Drops-trans : (m m' m'' : Model T) → Drops m m' → Drops m' m'' → Drops m m''
  Drops-trans m m' m'' d d' j = SameOrDropped-trans _ _ _ (d j) (d' j)

  -- The list and the frame together own each pending slot once, and nothing else.
  abbrev pub Owned : (ℕ → ℕ) → Model T → Type 0
  Owned owned m = (i : ℕ) → owned i ≡ is_pending (get_elem? m.slots i)

  Owned-drop_item :
      (i : ℕ) (v : T) (is : List ℕ) (frame : ℕ → ℕ) (m : Model T)
      → get_elem? m.slots i ≡ some (pending v)
      → Owned (λ j. times j (i ∷ is) + frame j) m
      → Owned (λ j. times j is + frame j) (drop_item i m)
  Owned-drop_item i v is frame m slot owned j = elim (dec_eq i j) [
    | inl (same, _) ↦
        let gone = get_elem?-set_self m.slots i vacant (lt_of_get_elem? m.slots i slot) in
        subst (λ t. times t is + frame t ≡ is_pending (get_elem? (drop_item i m).slots t)) same
          (rw gone (ground (arith, owned i, slot)))
    | inr (other, _) ↦ rw (get_elem?-set_ne m.slots i j vacant other) (ground (arith, owned j))
  ]

  Drops-drop_item :
      (i : ℕ) (v : T) (m : Model T)
      → get_elem? m.slots i ≡ some (pending v)
      → Drops m (drop_item i m)
  Drops-drop_item i v m slot j = elim (dec_eq i j) [
    | inl (same, _) ↦ inr (
      v,
      subst (λ t. get_elem? (drop_item i m).slots t ≡ some vacant) same
          (get_elem?-set_self m.slots i vacant (lt_of_get_elem? m.slots i slot)),
      subst (λ t. get_elem? m.slots t ≡ some (pending v)) same slot,
    )
    | inr (other, _) ↦ inl (get_elem?-set_ne m.slots i j vacant other)
  ]

  -- Finalizing removals that are owned succeeds, and leaves the frame as the owner of the others.
  pub finalize_all-Owned :
      (is : List ℕ) (frame : ℕ → ℕ) (c : Cslab T) (m : Model T)
      → Represents c m
      → Owned (λ j. times j is + frame j) m
      → (c' : Cslab T) × (m' : Model T) × (items : List T) × (finalize_all is c ≡ value (c', items))
        × Represents c' m'
        × Owned frame m'
        × Drops m m'
  unfolding finalize_all
  finalize_all-Owned [] frame c m rep owned =
      (c, m, [], refl, rep, λ j. omega (arith, owned j), λ j. inl refl)
  finalize_all-Owned (i ∷ is) frame c m rep owned =
      let here : is_pending (get_elem? m.slots i) ≡ 1 =
        ground (arith, owned i, is_pending-le (get_elem? m.slots i)) in
      let (v, slot) = pending_inv (get_elem? m.slots i) here in
      let (c1, runs, rep1) = finalize_remove-drop_item c m rep i v slot in
      let (c2, m2, items, runs', rep2, owned', drops) =
        finalize_all-Owned is frame c1 (drop_item i m) rep1
          (Owned-drop_item i v is frame m slot owned) in
      (
        c2,
        m2,
        v ∷ items,
        rw (runs, runs') refl,
        rep2,
        owned',
        Drops-trans m (drop_item i m) m2 (Drops-drop_item i v m slot) drops,
      )
