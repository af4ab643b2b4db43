-- ===== src/Cslab/Rcu/Protects.antt =====
-- A reader keeps its generation, and all later ones, from being finalized.
use zpr_utils.Base.{
  ℕ, zero, suc, ◌-◌, ◌≤◌, ◌≡◌, inl, inr, refl, sym, ◌∙◌, subst, Bool, true, false, Bool-cases, some,
  List, [], ◌∷◌, get_elem?, ◌==◌, arith,
}
use zpr_utils.Base.Exec.{Exec, value, panic, undefined, ◌>>=◌}
use zpr_utils.Cslab.Slab.{Cslab}
use zpr_utils.Cslab.Rcu.{RcuCslabGen, release, release_at, finalize_all}

-- A run of two steps that succeeds succeeds in both.
>>=-eq-value {ℓ κ} :
    {A : Type ℓ} {B : Type κ} (run : Exec A) (next : A → Exec B) {b : B}
    → (run >>= next) ≡ value b
    → (a : A) × (run ≡ value a) × (next a ≡ value b)
>>=-eq-value (value a) next e = (a, refl, e)
>>=-eq-value panic next e = cc
>>=-eq-value undefined next e = cc

-- Generation `n` keeps its pending removals, and the later ones do not change at all.
unfoldable pub Kept : ℕ → List RcuCslabGen → List RcuCslabGen → Type 0
Kept n [] gens' = ⊥
Kept zero (g ∷ gens) [] = ⊥
Kept zero (g ∷ gens) (g' ∷ gens') = (g'.pending_removes ≡ g.pending_removes) × (gens' ≡ gens)
Kept (suc n) (g ∷ gens) [] = ⊥
Kept (suc n) (g ∷ gens) (g' ∷ gens') = Kept n gens gens'

Kept-refl :
    (n : ℕ) (gens : List RcuCslabGen) {g : RcuCslabGen}
    → get_elem? gens n ≡ some g
    → Kept n gens gens
unfolding Kept
Kept-refl n [] e = cc
Kept-refl zero (g ∷ gens) e = (refl, refl)
Kept-refl (suc n) (g ∷ gens) e = Kept-refl n gens e

module _ {ℓ} {T : Type ℓ} where
  shared-release :
      (g : RcuCslabGen) (gens : List RcuCslabGen) (c : Cslab T)
      → (g.strong == 1) ≡ false
      → release (g ∷ gens) c ≡ value (record g { strong = g.strong - 1 } ∷ gens, c)
  unfolding release
  shared-release g gens c e = rw (release, e) refl

  -- What follows the finalization of a generation whose last reference is gone.
  abbrev onward : Bool → List RcuCslabGen → Cslab T → Exec (List RcuCslabGen × Cslab T)
  onward next gens c = elim next [ false ↦ value (gens, c) | true ↦ release gens c ]

  last-release :
      (h : RcuCslabGen) (gens : List RcuCslabGen) (c : Cslab T) (gens' : List RcuCslabGen)
      (c' : Cslab T)
      → (h.strong == 1) ≡ true
      → release (h ∷ gens) c ≡ value (gens', c')
      → (c1 : Cslab T) × (rest : List RcuCslabGen) × (c2 : Cslab T) × (onward h.next_gen gens c1
          ≡ value (rest, c2))
        × ((record h { strong = 0; pending_removes = [] } ∷ rest) ≡ gens')
  unfolding release
  last-release h gens c gens' c' last run =
      let opened = rw (release, last) at run in
      let (dropped, _, run1) = >>=-eq-value (finalize_all h.pending_removes c) _ opened in
      let (rest, run2, done) = >>=-eq-value (onward h.next_gen gens dropped.0) _ run1 in
      (dropped.0, rest.0, rest.1, run2, cc)

  release-Kept :
      (n : ℕ) (gens : List RcuCslabGen) (c : Cslab T) {g : RcuCslabGen}
      → get_elem? gens n ≡ some g
      → 2 ≤ g.strong
      → (gens' : List RcuCslabGen) (c' : Cslab T) → release gens c ≡ value (gens', c')
      → Kept n gens gens'
  unfolding release Kept
  release-Kept n [] c e two gens' c' run = cc
  release-Kept zero (h ∷ gens) c {g} e two gens' c' run =
      let same : h ≡ g = cc in
      let more : (h.strong == 1) ≡ false = rw same (ground arith) in
      let out = sym (shared-release h gens c more) ∙ run in
      let found : (record h { strong = h.strong - 1 } ∷ gens) ≡ gens' = cc in
      subst (Kept zero (h ∷ gens)) found (refl, refl)
  release-Kept (suc n) (h ∷ gens) c {g} e two gens' c' run = elim (Bool-cases (h.strong == 1)) [
    | inr more ↦
        let out = sym (shared-release h gens c more) ∙ run in
        let found : (record h { strong = h.strong - 1 } ∷ gens) ≡ gens' = cc in
        subst (Kept (suc n) (h ∷ gens)) found (Kept-refl n gens e)
    | inl last ↦
        let (c1, rest, c2, onwards, found) = last-release h gens c gens' c' last run in
        subst (Kept (suc n) (h ∷ gens)) found
          (by_next h.next_gen c1 rest c2 (λ d. release-Kept n gens c1 e two rest c2 d) onwards)
  ]
    where
      by_next :
          (next : Bool) (c1 : Cslab T) (rest : List RcuCslabGen) (c2 : Cslab T)
          → (release gens c1 ≡ value (rest, c2) → Kept n gens rest)
          → onward next gens c1 ≡ value (rest, c2)
          → Kept n gens rest
      by_next false c1 rest c2 released done =
          let same : gens ≡ rest = cc in subst (Kept n gens) same (Kept-refl n gens e)
      by_next true c1 rest c2 released done = released done

  -- For `k` at most `n`: dropping a reference to generation `k` finalizes neither generation `n`,
  -- while that has two references or more, nor any later one. If the drop comes to an end, `n` has
  -- the pending removals that it had, and the later generations are as they were.
  pub release_at-Kept :
      (k n : ℕ) (gens : List RcuCslabGen) (c : Cslab T) {g : RcuCslabGen}
      → k ≤ n
      → get_elem? gens n ≡ some g
      → 2 ≤ g.strong
      → (gens' : List RcuCslabGen) (c' : Cslab T) → release_at k gens c ≡ value (gens', c')
      → Kept n gens gens'
  unfolding release_at Kept
  release_at-Kept k n [] c le e two gens' c' run = cc
  release_at-Kept zero n (h ∷ gens) c le e two gens' c' run =
      release-Kept n (h ∷ gens) c e two gens' c' run
  release_at-Kept (suc k) zero (h ∷ gens) c le e two gens' c' run = absurd (omega arith)
  release_at-Kept (suc k) (suc n) (h ∷ gens) c le e two gens' c' run =
      let (rest, run1, done) = >>=-eq-value (release_at k gens c) _ run in
      let found : (h ∷ rest.0) ≡ gens' = cc in
      subst (Kept (suc n) (h ∷ gens)) found
        (release_at-Kept k n gens c (omega arith) e two rest.0 rest.1 run1)
