-- ===== src/Cslab/Iter/Seen.antt =====
-- What an iterator has before it, in the model: the items that the slots of a range show.
use zpr_utils.Base.{
  ℕ, zero, suc, ◌+◌, ◌≤◌, ◌<◌, ◌≡◌, refl, ap, ◌∙◌, Option, none, some, List, [], ◌∷◌, ◌++◌,
  get_last?, arith,
}
use mathlib.Core.List.{append-nil}
use zpr_utils.Cslab.Model.{Model, lookup}

module _ {ℓ} {T : Type ℓ} where
  -- `i`, with its item if it shows one, and then the others.
  abbrev pub with_item : ℕ → Option T → List (ℕ × T) → List (ℕ × T)
  with_item i none others = others
  with_item i (some v) others = (i, v) ∷ others

  -- The items of the `n` slots from `i` on, in the order of their indexes.
  unfoldable pub seen : Model T → ℕ → ℕ → List (ℕ × T)
  seen m zero i = []
  seen m (suc n) i = with_item i (lookup m i) (seen m n (i + 1))

  abbrev pub first : List (ℕ × T) → Option (ℕ × T)
  first [] = none
  first (x ∷ xs) = some x

  abbrev pub rest : List (ℕ × T) → List (ℕ × T)
  rest [] = []
  rest (x ∷ xs) = xs

  -- Slots that show nothing can be passed over, at the front and at the back.
  pub seen-skip :
      (m : Model T) (d k n i : ℕ)
      → d + k ≡ n
      → ((j : ℕ) → j < d → lookup m (i + j) ≡ none)
      → seen m n i ≡ seen m k (i + d)
  unfolding seen
  seen-skip m zero k n i e clear =
      let same : k ≡ n = omega arith in let start : i + 0 ≡ i = omega arith in rw (same, start) refl
  seen-skip m (suc d) k zero i e clear = absurd (omega arith)
  seen-skip m (suc d) k (suc n) i e clear =
      let here : i + 0 ≡ i = omega arith in
      let next : i + suc d ≡ i + 1 + d = omega arith in
      let absent : lookup m i ≡ none = rw here at (clear 0 (omega arith)) in
      rw (absent, next)
        (seen-skip m d k n (i + 1) (omega arith) (λ j h.
          let shift : i + 1 + j ≡ i + suc j = omega arith in
          rw shift (clear (suc j) (omega arith))))

  with_item-append :
      (i : ℕ) (o : Option T) (xs ys : List (ℕ × T))
      → with_item i o (xs ++ ys) ≡ with_item i o xs ++ ys
  with_item-append i none xs ys = refl
  with_item-append i (some v) xs ys = refl

  pub seen-append :
      (m : Model T) (a b n i : ℕ) → a + b ≡ n → seen m n i ≡ seen m a i ++ seen m b (i + a)
  unfolding seen
  seen-append m zero b n i e =
      let same : b ≡ n = omega arith in let start : i + 0 ≡ i = omega arith in rw (same, start) refl
  seen-append m (suc a) b zero i e = absurd (omega arith)
  seen-append m (suc a) b (suc n) i e =
      let next : i + suc a ≡ i + 1 + a = omega arith in
      rw next (
        ap (with_item i (lookup m i)) (seen-append m a b n (i + 1) (omega arith))
        ∙ with_item-append i (lookup m i) (seen m a (i + 1)) (seen m b (i + 1 + a)))

  pub seen-skip_back :
      (m : Model T) (a d n i : ℕ)
      → a + d ≡ n
      → ((j : ℕ) → j < d → lookup m (i + a + j) ≡ none)
      → seen m n i ≡ seen m a i
  unfolding seen
  seen-skip_back m a d n i e clear =
      let gone = seen-skip m d 0 d (i + a) (omega arith) clear in
      seen-append m a d n i e ∙ ap (λ xs. seen m a i ++ xs) gone ∙ append-nil (seen m a i)

  pub seen-last :
      (m : Model T) (a i : ℕ) {v : T}
      → lookup m (i + a) ≡ some v
      → seen m (suc a) i ≡ seen m a i ++ (i + a, v) ∷ []
  unfolding seen
  seen-last m a i e =
      seen-append m a 1 (suc a) i (omega arith) ∙ ap (λ o. seen m a i ++ with_item (i + a) o []) e

  pub seen-hit :
      (m : Model T) (n i : ℕ) {v : T}
      → lookup m i ≡ some v
      → seen m (suc n) i ≡ (i, v) ∷ seen m n (i + 1)
  unfolding seen
  seen-hit m n i e = ap (λ o. with_item i o (seen m n (i + 1))) e

  -- All but the last.
  abbrev pub front : List (ℕ × T) → List (ℕ × T)
  front [] = []
  front (x ∷ []) = []
  front (x ∷ y ∷ xs) = x ∷ front (y ∷ xs)

  pub get_last?-append : (xs : List (ℕ × T)) (x : ℕ × T) → get_last? (xs ++ x ∷ []) ≡ some x
  get_last?-append [] x = refl
  get_last?-append (y ∷ []) x = refl
  get_last?-append (y ∷ z ∷ xs) x = get_last?-append (z ∷ xs) x

  pub front-append : (xs : List (ℕ × T)) (x : ℕ × T) → front (xs ++ x ∷ []) ≡ xs
  front-append [] x = refl
  front-append (y ∷ []) x = refl
  front-append (y ∷ z ∷ xs) x = ap (λ ys. y ∷ ys) (front-append (z ∷ xs) x)

  -- `head` is past an item that was returned.
  abbrev pub Past : Option (ℕ × T) → ℕ → Type 0
  Past none head = Unit
  Past (some x) head = x.0 < head

  -- `tail` is not past an item that was returned from the back.
  abbrev pub Before : Option (ℕ × T) → ℕ → Type 0
  Before none tail = Unit
  Before (some x) tail = tail ≤ x.0
