-- ===== src/Cslab/Iter/Among.antt =====
-- Which items are among those that an iterator has before it.
use zpr_utils.Base.{
  ℕ, zero, suc, ◌+◌, ◌≤◌, ◌<◌, ◌≡◌, ◌≢◌, inl, inr, refl, sym, ap, ◌∙◌, subst, Option, none, some,
  List, [], ◌∷◌, length, get_elem?, get_elem?-set_ne, get_elem?-set_self, lt_of_get_elem?, All,
  arith,
}
use zpr_utils.Cslab.Bitmap.{dec_eq}
use zpr_utils.Cslab.Model.{Slot, pending, Model, lookup, shown, hide}
use zpr_utils.Cslab.Iter.Seen.{seen, with_item}

module _ {ℓ} {T : Type ℓ} where
  abbrev pub Among : ℕ × T → List (ℕ × T) → Type ℓ
  Among x xs = (k : ℕ) × (get_elem? xs k ≡ some x)

  Among-with_item :
      (i : ℕ) (o : Option T) (x : ℕ × T) (xs : List (ℕ × T))
      → Among x xs
      → Among x (with_item i o xs)
  Among-with_item i none x xs a = a
  Among-with_item i (some v) x xs (k, e) = (suc k, e)

  pub seen-Among :
      (m : Model T) (n h j : ℕ) (u : T)
      → lookup m j ≡ some u
      → h ≤ j
      → j < h + n
      → Among (j, u) (seen m n h)
  unfolding seen
  seen-Among m zero h j u shows low high = absurd (omega arith)
  seen-Among m (suc n) h j u shows low high = elim (dec_eq h j) [
    | inl (same, _) ↦
        let here : lookup m h ≡ some u = rw same shows in
        subst (λ o. Among (j, u) (with_item h o (seen m n (h + 1)))) (sym here)
          (0, ap (λ (t : ℕ). some (t, u)) same)
    | inr (other, _) ↦
        Among-with_item h (lookup m h) (j, u) (seen m n (h + 1))
          (seen-Among m n (h + 1) j u shows (omega (arith, apart h j low other)) (omega arith))
  ]
    where
      apart : (h j : ℕ) → h ≤ j → h ≢ j → h + 1 ≤ j
      apart h j le ne = ground (arith, ne)

  -- The first of them is shown.
  pub seen-shows :
      (m : Model T) (n h i : ℕ) (v : T) (xs : List (ℕ × T))
      → seen m n h ≡ (i, v) ∷ xs
      → lookup m i ≡ some v
  unfolding seen
  seen-shows m zero h i v xs e = cc
  seen-shows m (suc n) h i v xs e = by_item (lookup m h) refl e (seen-shows m n (h + 1) i v xs)
    where
      by_item :
          (o : Option T)
          → lookup m h ≡ o
          → with_item h o (seen m n (h + 1)) ≡ (i, v) ∷ xs
          → (seen m n (h + 1) ≡ (i, v) ∷ xs → lookup m i ≡ some v)
          → lookup m i ≡ some v
      by_item none e' f later = later f
      by_item (some w) e' f later =
          let at_h : h ≡ i = cc in
          let item : w ≡ v = cc in
          subst (λ t. lookup m t ≡ some v) at_h (e' ∙ ap (λ (t : T). some t) item)

  -- Only what is shown in the range counts.
  pub seen-cong_within :
      (m m' : Model T) (n h : ℕ)
      → ((j : ℕ) → h ≤ j → j < h + n → lookup m' j ≡ lookup m j)
      → seen m' n h ≡ seen m n h
  unfolding seen
  seen-cong_within m m' zero h same = refl
  seen-cong_within m m' (suc n) h same = rw (same h (omega arith) (omega arith)) (
      ap (with_item h (lookup m h))
        (seen-cong_within m m' n (h + 1) (λ j le lt. same j (omega arith) (omega arith))))

  pub seen-cong :
      (m m' : Model T) (n h : ℕ)
      → ((j : ℕ) → h ≤ j → lookup m' j ≡ lookup m j)
      → seen m' n h ≡ seen m n h
  seen-cong m m' n h same = seen-cong_within m m' n h (λ j le lt. same j le)

  -- What is in the range is shown, at an index of the range.
  abbrev pub Within : Model T → ℕ → ℕ → ℕ × T → Type ℓ
  Within m h t x = (lookup m x.0 ≡ some x.1) × (h ≤ x.0) × (x.0 < t)

  pub seen-Within : (m : Model T) (n h t : ℕ) → h + n ≡ t → All (Within m h t) (seen m n h)
  unfolding seen
  seen-Within m zero h t e = tt
  seen-Within m (suc n) h t e =
      by_item (lookup m h) refl (wider (seen m n (h + 1)) (seen-Within m n (h + 1) t (omega arith)))
    where
      wider : (xs : List (ℕ × T)) → All (Within m (h + 1) t) xs → All (Within m h t) xs
      wider [] all = tt
      wider (x ∷ xs) ((shows, low, high), all) = ((shows, omega arith, high), wider xs all)

      by_item :
          (o : Option T)
          → lookup m h ≡ o
          → All (Within m h t) (seen m n (h + 1))
          → All (Within m h t) (with_item h o (seen m n (h + 1)))
      by_item none e' all = all
      by_item (some v) e' all = ((e', omega arith, omega arith), all)

  pub lookup-hide_ne : (m : Model T) (i j : ℕ) (v : T) → i ≢ j → lookup (hide i v m) j ≡ lookup m j
  lookup-hide_ne m i j v other = ap shown (get_elem?-set_ne m.slots i j (pending v) other)

  pub lookup-hide :
      (m : Model T) (i : ℕ) (v : T) {s : Slot T}
      → get_elem? m.slots i ≡ some s
      → lookup (hide i v m) i ≡ none
  lookup-hide m i v slot =
      ap shown (get_elem?-set_self m.slots i (pending v) (lt_of_get_elem? m.slots i slot))

  pub length-seen_le : (m : Model T) (n h : ℕ) → length (seen m n h) ≤ n
  unfolding seen
  length-seen_le m zero h = omega arith
  length-seen_le m (suc n) h = by_item (lookup m h) (length-seen_le m n (h + 1))
    where
      by_item :
          (o : Option T)
          → length (seen m n (h + 1)) ≤ n
          → length (with_item h o (seen m n (h + 1))) ≤ suc n
      by_item none le = omega arith
      by_item (some v) le = omega arith
