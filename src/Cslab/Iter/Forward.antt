-- ===== src/Cslab/Iter/Forward.antt =====
-- `next` returns the first of the items that the iterator has before it.
use zpr_utils.Base.{
  subst, ℕ, zero, suc, ◌+◌, ◌-◌, ◌/◌, ◌≤◌, ◌<◌, ◌^◌, ◌≡◌, inl, inr, refl, sym, ap, ◌∙◌, Bool-cases,
  true, false, Option, none, some, leb, ◌==◌, get_elem?, get_elem?-of_lt, All-get_elem?, arith,
}
use zpr_utils.Base.Exec.{Exec, value}
use zpr_utils.Cslab.Storage.{bits, get_unchecked_impl}
use zpr_utils.Cslab.Slab.{Cslab}
use zpr_utils.Cslab.Bitmap.{word_in_range}
use zpr_utils.Cslab.Model.{Model}
use zpr_utils.Cslab.Represents.{Represents}
use zpr_utils.Cslab.Iter.{Iter, next_loop, next, shifted_down, distance}
use zpr_utils.Cslab.Iter.Seen.{seen, first, rest, Past, seen-skip, seen-hit}
use zpr_utils.Cslab.Iter.Scan.{distance-clear, distance-set, lookup-clear, lookup-set}

abbrev pub between {ℓ} : {T : Type ℓ} → Cslab T → ℕ → ℕ → Iter T
between c head tail = record { storage = c.storage; head = head; tail = tail }

-- One round of the loop, by what it finds.
module _ {ℓ} {T : Type ℓ} (c : Cslab T) (fuel h t word : ℕ)
    (read : get_elem? c.bitmap (h / bits) ≡ some word) where
  abbrev d : ℕ
  d = distance (shifted_down word h) h

  round-end :
      leb (t - h) d ≡ true → next_loop (suc fuel) (between c h t) ≡ value (between c t t, none)
  unfolding next_loop
  round-end past = ground arith

  round-onward :
      leb (t - h) d ≡ false
      → (shifted_down word h == 0) ≡ true
      → next_loop (suc fuel) (between c h t) ≡ next_loop fuel (between c (h + d) t)
  unfolding next_loop
  round-onward near none_left = ground arith

  round-found :
      (v : T)
      → leb (t - h) d ≡ false
      → (shifted_down word h == 0) ≡ false
      → get_unchecked_impl c.storage (h + d) ≡ value v
      → next_loop (suc fuel) (between c h t) ≡ value (between c (h + d + 1) t, some (h + d, v))
  unfolding next_loop
  round-found v near some_left item = ground arith

module _ {ℓ} {T : Type ℓ} (c : Cslab T) (m : Model T) (rep : Represents c m) (t : ℕ)
    (inside : t ≤ c.size) where
  -- The run returns the first item before `t` of the `n` from `h` on, and has the others left.
  abbrev Advances : ℕ → ℕ → Exec (Iter T × Option (ℕ × T)) → Type ℓ
  Advances n h run =
      (n' : ℕ) × (h' : ℕ) × (h' + n' ≡ t)
      × (run ≡ value (between c h' t, first (seen m n h)))
      × (seen m n' h' ≡ rest (seen m n h))
      × Past (first (seen m n h)) h'

  word_at :
      (h : ℕ) → h < t → (word : ℕ) × (get_elem? c.bitmap (h / bits) ≡ some word) × (word < 2 ^ 64)
  word_at h low =
      let (word, read) =
        get_elem?-of_lt c.bitmap (h / bits)
          (rw rep.words_len (word_in_range c.size h (omega arith))) in
      (word, read, All-get_elem? (λ w. w < 2 ^ 64) c.bitmap (h / bits) rep.word_width read)

  module _ (h word : ℕ) (read : get_elem? c.bitmap (h / bits) ≡ some word)
      (width : word < 2 ^ 64) where
    abbrev gap : ℕ
    gap = distance (shifted_down word h) h

    passed : (k n : ℕ) → k ≤ gap → (k' : ℕ) → k + k' ≡ n → seen m n h ≡ seen m k' (h + k)
    passed k n le k' e = seen-skip m k k' n h e (λ j near.
        lookup-clear c m rep (h + j) (distance-clear c.bitmap h word read width j (omega arith)))

    found-Advances :
        (fuel n : ℕ)
        → h + n ≡ t
        → 0 < n
        → leb (t - h) gap ≡ false
        → (shifted_down word h == 0) ≡ false
        → Advances n h (next_loop (suc fuel) (between c h t))
    found-Advances fuel n e some_left near set =
        let (v, shows, item, low) =
          lookup-set c m rep (h + gap) (distance-set c.bitmap h word read width set) in
        let apart =
          passed gap n (omega arith) (suc (n - gap - 1)) (ground arith)
          ∙ seen-hit m (n - gap - 1) (h + gap) shows in
        (
          n - gap - 1,
          h + gap + 1,
          ground arith,
          round-found c fuel h t word read v near set item
              ∙ ap (λ xs. value (between c (h + gap + 1) t, first xs)) (sym apart),
          ap rest (sym apart),
          subst (λ xs. Past (first xs) (h + gap + 1)) (sym apart) (omega arith),
        )

  loop-Advances :
      (fuel n h : ℕ) → h + n ≡ t → 0 < n → n ≤ fuel → Advances n h (next_loop fuel (between c h t))
  unfolding seen
  loop-Advances zero n h e some_left enough = absurd (omega arith)
  loop-Advances (suc fuel) n h e some_left enough =
      let (word, read, width) = word_at h (omega arith) in
      let g = gap h word read width in
      elim (Bool-cases (leb (t - h) g)) [
        | inl past ↦
            let none_left = passed h word read width n n (ground arith) 0 (omega arith) in
            (
              0,
              t,
              omega arith,
              round-end c fuel h t word read past
                  ∙ ap (λ xs. value (between c t t, first xs)) (sym none_left),
              ap rest (sym none_left),
              subst (λ xs. Past (first xs) t) (sym none_left) tt,
            )
        | inr near ↦ elim (Bool-cases (shifted_down word h == 0)) [
          | inl blank ↦
              let apart = passed h word read width g n (omega arith) (n - g) (ground arith) in
              let (n', h', e', runs, left, past) =
                loop-Advances fuel (n - g) (h + g) (ground arith) (ground arith) (ground arith) in
              (
                n',
                h',
                e',
                round-onward c fuel h t word read near blank
                    ∙ runs
                    ∙ ap (λ xs. value (between c h' t, first xs)) (sym apart),
                left ∙ ap rest (sym apart),
                subst (λ xs. Past (first xs) h') (sym apart) past,
              )
          | inr set ↦ found-Advances h word read width fuel n e some_left near set
        ]
      ]

  -- `next`, on an iterator over a slab that represents a model, returns the first of the items that
  -- the model shows from head to tail, and leaves the iterator past it and before the others.
  pub next-seen :
      (n h : ℕ)
      → h + n ≡ t
      → (n' : ℕ) × (h' : ℕ) × (h' + n' ≡ t)
        × (next (between c h t) ≡ value (between c h' t, first (seen m n h)))
        × (seen m n' h' ≡ rest (seen m n h))
        × Past (first (seen m n h)) h'
  unfolding next seen
  next-seen zero h e = (0, h, e, ground arith, refl, tt)
  next-seen (suc n) h e =
      let some_left : leb t h ≡ false = ground arith in
      let count : t - h ≡ suc n = omega arith in
      rw (some_left, count) (loop-Advances (suc n) (suc n) h e (omega arith) (omega arith))
