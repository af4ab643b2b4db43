-- ===== src/Cslab/Iter/Backward.antt =====
-- `next_back` returns the last of the items that the iterator has before it.
use zpr_utils.Base.{
  ℕ, zero, suc, ◌+◌, ◌-◌, ◌/◌, ◌≤◌, ◌<◌, ◌≡◌, inl, inr, refl, sym, ap, ◌∙◌, subst, Bool-cases, true,
  false, Option, none, some, [], ◌∷◌, ◌++◌, leb, ◌==◌, get_elem?, get_last?, get_elem?-of_lt, arith,
}
use zpr_utils.Base.Exec.{Exec, value}
use zpr_utils.Cslab.Storage.{bits, get_unchecked_impl}
use zpr_utils.Cslab.Slab.{Cslab}
use zpr_utils.Cslab.Bitmap.{word_in_range}
use zpr_utils.Cslab.Model.{Model}
use zpr_utils.Cslab.Represents.{Represents}
use zpr_utils.Cslab.Iter.{Iter, next_back_loop, next_back, shifted_up, distance_back}
use zpr_utils.Cslab.Iter.Forward.{between}
use zpr_utils.Cslab.Iter.Seen.{
  seen, front, Before, seen-skip_back, seen-last, get_last?-append, front-append,
}
use zpr_utils.Cslab.Iter.Scan.{distance_back-clear, distance_back-set, lookup-clear, lookup-set}

-- One round of the loop, by what it finds.
module _ {ℓ} {T : Type ℓ} (c : Cslab T) (fuel h t word : ℕ)
    (read : get_elem? c.bitmap ((t - 1) / bits) ≡ some word) where
  abbrev d : ℕ
  d = distance_back (shifted_up word (t - 1)) (t - 1)

  round-end :
      leb (t - h) d ≡ true → next_back_loop (suc fuel) (between c h t) ≡ value (between c h h, none)
  unfolding next_back_loop
  round-end past = ground arith

  round-onward :
      leb (t - h) d ≡ false
      → (shifted_up word (t - 1) == 0) ≡ true
      → next_back_loop (suc fuel) (between c h t) ≡ next_back_loop fuel (between c h (t - d))
  unfolding next_back_loop
  round-onward near none_left = ground arith

  round-found :
      (v : T)
      → leb (t - h) d ≡ false
      → (shifted_up word (t - 1) == 0) ≡ false
      → get_unchecked_impl c.storage (t - d - 1) ≡ value v
      → next_back_loop (suc fuel) (between c h t)
        ≡ value (between c h (t - d - 1), some (t - d - 1, v))
  unfolding next_back_loop
  round-found v near some_left item = ground arith

module _ {ℓ} {T : Type ℓ} (c : Cslab T) (m : Model T) (rep : Represents c m) (h : ℕ) where
  -- The run returns the last item of the `n` from `h` on, and has the others left.
  abbrev Retreats : ℕ → Exec (Iter T × Option (ℕ × T)) → Type ℓ
  Retreats n run =
      (n' : ℕ) × (t' : ℕ) × (h + n' ≡ t')
      × (run ≡ value (between c h t', get_last? (seen m n h)))
      × (seen m n' h ≡ front (seen m n h))
      × Before (get_last? (seen m n h)) t'
      × (n' ≤ n)

  word_at : (l : ℕ) → l < c.size → (word : ℕ) × (get_elem? c.bitmap (l / bits) ≡ some word)
  word_at l low =
      get_elem?-of_lt c.bitmap (l / bits) (rw rep.words_len (word_in_range c.size l low))

  module _ (t word : ℕ) (some_left : h < t)
      (read : get_elem? c.bitmap ((t - 1) / bits) ≡ some word) where
    abbrev gap : ℕ
    gap = distance_back (shifted_up word (t - 1)) (t - 1)

    passed : (k n : ℕ) → k ≤ gap → (n' : ℕ) → n' + k ≡ n → h + n ≡ t → seen m n h ≡ seen m n' h
    passed k n le n' e whole = seen-skip_back m n' k n h e (λ j near.
        let place : t - 1 - (k - 1 - j) ≡ h + n' + j = omega arith in
        rw (← place) (
          lookup-clear c m rep (t - 1 - (k - 1 - j))
            (distance_back-clear c.bitmap (t - 1) word read (k - 1 - j) (omega arith))))

    found-Retreats :
        (fuel n : ℕ)
        → h + n ≡ t
        → t ≤ c.size
        → leb (t - h) gap ≡ false
        → (shifted_up word (t - 1) == 0) ≡ false
        → Retreats n (next_back_loop (suc fuel) (between c h t))
    found-Retreats fuel n e inside near set =
        let (flag_set, le) = distance_back-set c.bitmap (t - 1) word read set in
        let place : t - 1 - gap ≡ t - gap - 1 = omega arith in
        let (v, shows, item, low) = lookup-set c m rep (t - gap - 1) (rw (← place) flag_set) in
        let index : t - gap - 1 ≡ h + (n - gap - 1) = ground arith in
        let apart =
          passed gap n (omega arith) (suc (n - gap - 1)) (ground arith) e
          ∙ seen-last m (n - gap - 1) h (rw (← index) shows) in
        let named = apart ∙ ap (λ i. seen m (n - gap - 1) h ++ (i, v) ∷ []) (sym index) in
        let last =
          ap get_last? named ∙ get_last?-append (seen m (n - gap - 1) h) (t - gap - 1, v) in
        let others = ap front named ∙ front-append (seen m (n - gap - 1) h) (t - gap - 1, v) in
        (
          n - gap - 1,
          t - gap - 1,
          sym index,
          round-found c fuel h t word read v near set item
              ∙ ap (λ o. value (between c h (t - gap - 1), o)) (sym last),
          sym others,
          subst (λ o. Before o (t - gap - 1)) (sym last) (omega arith),
          omega arith,
        )

  loop-Retreats :
      (fuel n t : ℕ)
      → h + n ≡ t
      → t ≤ c.size
      → 0 < n
      → n ≤ fuel
      → Retreats n (next_back_loop fuel (between c h t))
  unfolding seen
  loop-Retreats zero n t e inside some_left enough = absurd (omega arith)
  loop-Retreats (suc fuel) n t e inside some_left enough =
      let (word, read) = word_at (t - 1) (omega arith) in
      let left : h < t = omega arith in
      let g = gap t word left read in
      elim (Bool-cases (leb (t - h) g)) [
        | inl past ↦
            let none_left = passed t word left read n n (ground arith) 0 (omega arith) e in
            (
              0,
              h,
              omega arith,
              round-end c fuel h t word read past
                  ∙ ap (λ xs. value (between c h h, get_last? xs)) (sym none_left),
              ap front (sym none_left),
              subst (λ xs. Before (get_last? xs) h) (sym none_left) tt,
              omega arith,
            )
        | inr near ↦ elim (Bool-cases (shifted_up word (t - 1) == 0)) [
          | inl blank ↦
              let apart = passed t word left read g n (omega arith) (n - g) (ground arith) e in
              let (n', t', e', runs, others, before, fewer) =
                loop-Retreats fuel (n - g) (t - g) (ground arith) (omega arith) (ground arith)
                  (ground arith) in
              (
                n',
                t',
                e',
                round-onward c fuel h t word read near blank
                    ∙ runs
                    ∙ ap (λ xs. value (between c h t', get_last? xs)) (sym apart),
                others ∙ ap front (sym apart),
                subst (λ xs. Before (get_last? xs) t') (sym apart) before,
                ground (arith, fewer),
              )
          | inr set ↦ found-Retreats t word left read fuel n e inside near set
        ]
      ]

  -- `next_back`, on an iterator over a slab that represents a model, returns the last of the items
  -- that the model shows from head to tail, and leaves the iterator before it, with the others.
  pub next_back-seen :
      (n t : ℕ)
      → h + n ≡ t
      → t ≤ c.size
      → (n' : ℕ) × (t' : ℕ) × (h + n' ≡ t')
        × (next_back (between c h t) ≡ value (between c h t', get_last? (seen m n h)))
        × (seen m n' h ≡ front (seen m n h))
        × Before (get_last? (seen m n h)) t'
        × (n' ≤ n)
  unfolding next_back seen
  next_back-seen zero t e inside = (0, t, e, ground arith, refl, tt, omega arith)
  next_back-seen (suc n) t e inside =
      let some_left : leb t h ≡ false = ground arith in
      let count : t - h ≡ suc n = omega arith in
      rw (some_left, count) (loop-Retreats (suc n) (suc n) t e inside (omega arith) (omega arith))
