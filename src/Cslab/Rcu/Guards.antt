-- ===== src/Cslab/Rcu/Guards.antt =====
-- What a reader of a generation relies on: an item that it may have seen is present, or its removal
-- is owned by that generation or a later one.
use zpr_utils.Base.{
  ℕ, zero, suc, ◌≤◌, ◌<◌, ◌≡◌, ◌⊎◌, inl, inr, ap, ◌∙◌, subst, some, List, [], ◌∷◌, ◌++◌, length,
  get_elem?, get_elem?-set_ne, get_elem?-set_self, lt_of_get_elem?, set, arith, All,
}
use zpr_utils.Cslab.Bitmap.{dec_eq}
use zpr_utils.Cslab.Model.{vacant, present, pending, Model, put_first, hide}
use zpr_utils.Cslab.Rcu.{RcuCslabGen}
use zpr_utils.Cslab.Rcu.Owners.{times, owners, is_pending, Owned, Drops}
use zpr_utils.Cslab.Rcu.Counts.{Keeps}

-- The generations from number `n` on.
abbrev pub later : ℕ → List RcuCslabGen → List RcuCslabGen
later n [] = []
later zero (g ∷ gens) = g ∷ gens
later (suc n) (g ∷ gens) = later n gens

pub owners-later : (n i : ℕ) (gens : List RcuCslabGen) → owners i (later n gens) ≤ owners i gens
owners-later n i [] = omega arith
owners-later zero i (g ∷ gens) = omega arith
owners-later (suc n) i (g ∷ gens) = omega (arith, owners-later n i gens)

owners-set_le :
    (k i : ℕ) (gens : List RcuCslabGen) (g g' : RcuCslabGen)
    → get_elem? gens k ≡ some g
    → times i g.pending_removes ≤ times i g'.pending_removes
    → owners i gens ≤ owners i (set gens k g')
owners-set_le k i [] g g' e le = omega arith
owners-set_le zero i (h ∷ gens) g g' e le =
    let same : h ≡ g = cc in omega (arith, le, ap (λ t. times i t.pending_removes) same)
owners-set_le (suc k) i (h ∷ gens) g g' e le = omega (arith, owners-set_le k i gens g g' e le)

-- A generation gets more removals.
pub owners-later-set :
    (n k i : ℕ) (gens : List RcuCslabGen) (g g' : RcuCslabGen)
    → get_elem? gens k ≡ some g
    → times i g.pending_removes ≤ times i g'.pending_removes
    → owners i (later n gens) ≤ owners i (later n (set gens k g'))
owners-later-set n k i [] g g' e le = cc
owners-later-set zero zero i (h ∷ gens) g g' e le = owners-set_le 0 i (h ∷ gens) g g' e le
owners-later-set zero (suc k) i (h ∷ gens) g g' e le = owners-set_le (suc k) i (h ∷ gens) g g' e le
owners-later-set (suc n) zero i (h ∷ gens) g g' e le = omega arith
owners-later-set (suc n) (suc k) i (h ∷ gens) g g' e le = owners-later-set n k i gens g g' e le

-- They are among those of the generations from any earlier one on.
pub times-later :
    (n k i : ℕ) (gens : List RcuCslabGen) (g : RcuCslabGen)
    → n ≤ k
    → get_elem? gens k ≡ some g
    → times i g.pending_removes ≤ owners i (later n gens)
times-later n k i [] g le e = cc
times-later zero zero i (h ∷ gens) g le e =
    let same : h ≡ g = cc in omega (arith, ap (λ t. times i t.pending_removes) same)
times-later zero (suc k) i (h ∷ []) g le e = cc
times-later zero (suc k) i (h ∷ h' ∷ gens) g le e =
    omega (arith, times-later zero k i (h' ∷ gens) g (omega arith) e)
times-later (suc n) zero i (h ∷ gens) g le e = absurd (omega arith)
times-later (suc n) (suc k) i (h ∷ gens) g le e = times-later n k i gens g (omega arith) e

owners-append : (i : ℕ) (gens ks : List RcuCslabGen) → owners i gens ≤ owners i (gens ++ ks)
owners-append i [] ks = omega arith
owners-append i (g ∷ gens) ks = omega (arith, owners-append i gens ks)

pub owners-later-append :
    (n i : ℕ) (gens ks : List RcuCslabGen)
    → owners i (later n gens) ≤ owners i (later n (gens ++ ks))
owners-later-append n i [] ks = omega arith
owners-later-append zero i (g ∷ gens) ks = owners-append i (g ∷ gens) ks
owners-later-append (suc n) i (g ∷ gens) ks = owners-later-append n i gens ks

pub Keeps-later :
    (n r j : ℕ) (readers : List ℕ) (gens gens' : List RcuCslabGen)
    → Keeps readers gens gens'
    → get_elem? readers n ≡ some (suc r)
    → n < length gens
    → owners j (later n gens') ≡ owners j (later n gens)
Keeps-later n r j readers [] gens' keeps e lt = absurd (omega arith)
Keeps-later n r j [] (g ∷ gens) gens' keeps e lt = cc
Keeps-later n r j (q ∷ readers) (g ∷ gens) [] keeps e lt = absurd keeps
Keeps-later zero r j (q ∷ readers) (g ∷ gens) (g' ∷ gens') keeps e lt =
    let same : q ≡ suc r = cc in keeps.0 (omega arith) j
Keeps-later (suc n) r j (q ∷ readers) (g ∷ gens) (g' ∷ gens') keeps e lt =
    Keeps-later n r j readers gens gens' keeps.1 e (omega arith)

module _ {ℓ} {T : Type ℓ} where
  -- The item `v` of slot `i` is not dropped before the readers of generation `n`.
  abbrev pub Guarded : ℕ → ℕ → T → Model T → List RcuCslabGen → Type ℓ
  Guarded n i v m gens =
      (get_elem? m.slots i ≡ some (present v))
      ⊎ ((get_elem? m.slots i ≡ some (pending v)) × (1 ≤ owners i (later n gens)))

  pub Guarded-same :
      (n i : ℕ) (v : T) (m m' : Model T) (gens gens' : List RcuCslabGen)
      → get_elem? m'.slots i ≡ get_elem? m.slots i
      → owners i (later n gens) ≤ owners i (later n gens')
      → Guarded n i v m gens
      → Guarded n i v m' gens'
  Guarded-same n i v m m' gens gens' slot le (inl e) = inl (slot ∙ e)
  Guarded-same n i v m m' gens gens' slot le (inr (e, own)) = inr (slot ∙ e, omega arith)

  -- Dropping what is owned by no generation any more.
  pub Guarded-Drops :
      (n i : ℕ) (v : T) (m m' : Model T) (gens gens' : List RcuCslabGen)
      → Drops m m'
      → Owned (λ j. owners j gens') m'
      → owners i (later n gens) ≤ owners i (later n gens')
      → Guarded n i v m gens
      → Guarded n i v m' gens'
  Guarded-Drops n i v m m' gens gens' drops owned le guarded = elim (drops i) [
    | inl same ↦ Guarded-same n i v m m' gens gens' same le guarded
    | inr (w, gone, was) ↦
        let none_left : owners i gens' ≡ 0 = owned i ∙ ap is_pending gone in
        dropped w gone was none_left guarded
  ]
    where
      dropped :
          (w : T)
          → get_elem? m'.slots i ≡ some vacant
          → get_elem? m.slots i ≡ some (pending w)
          → owners i gens' ≡ 0
          → Guarded n i v m gens
          → Guarded n i v m' gens'
      dropped w gone was none_left (inl e) = cc
      dropped w gone was none_left (inr (e, own)) =
          absurd (omega (arith, owners-later n i gens', le, own, none_left))

  pub Guarded-put :
      (n i : ℕ) (v u : T) (m : Model T) (free : List ℕ) (gens : List RcuCslabGen)
      → All (λ k. get_elem? m.slots k ≡ some vacant) free
      → Guarded n i v m gens
      → Guarded n i v (put_first u m free).0 gens
  Guarded-put n i v u m [] gens vacant_slots guarded = guarded
  Guarded-put n i v u m (k ∷ free) gens vacant_slots guarded = elim (dec_eq k i) [
    | inr (other, _) ↦
        Guarded-same n i v m (record { slots = set m.slots k (present u); free = free }) gens gens
          (get_elem?-set_ne m.slots k i (present u) other) (omega arith) guarded
    | inl (same, _) ↦
        not_vacant (subst (λ t. get_elem? m.slots t ≡ some vacant) same vacant_slots.0) guarded
  ]
    where
      not_vacant :
          get_elem? m.slots i ≡ some vacant
          → Guarded n i v m gens
          → Guarded n i v (record { slots = set m.slots k (present u); free = free }) gens
      not_vacant e (inl e') = cc
      not_vacant e (inr (e', own)) = cc

  -- The removal of a present item `u` of slot `k` is given to generation `c`, of `n` or later.
  pub Guarded-hide :
      (n i c k : ℕ) (v u : T) (m : Model T) (gens : List RcuCslabGen) (g : RcuCslabGen)
      → get_elem? m.slots k ≡ some (present u)
      → get_elem? gens c ≡ some g
      → n ≤ c
      → Guarded n i v m gens
      → Guarded n i v
          (hide k u m)
          (set gens c (record g { pending_removes = g.pending_removes ++ k ∷ [] }))
  Guarded-hide n i c k v u m gens g slot eg le guarded =
      let g' : RcuCslabGen = record g { pending_removes = g.pending_removes ++ k ∷ [] } in
      elim (dec_eq k i) [
        | inr (other, _) ↦
            Guarded-same n i v m (hide k u m) gens (set gens c g')
              (get_elem?-set_ne m.slots k i (pending u) other)
              (owners-later-set n c i gens g g' eg (times-more i k g.pending_removes)) guarded
        | inl (same, _) ↦
            let now : get_elem? (hide k u m).slots i ≡ some (pending u) =
              subst (λ t. get_elem? (hide k u m).slots t ≡ some (pending u)) same
                (get_elem?-set_self m.slots k (pending u) (lt_of_get_elem? m.slots k slot)) in
            let owned =
              times-later n c i (set gens c g') g' le
                (get_elem?-set_self gens c g' (lt_of_get_elem? gens c eg)) in
            here (set gens c g') (subst (λ t. get_elem? m.slots t ≡ some (present u)) same slot) now
              (ground (arith, owned, times-added i k g.pending_removes same)) guarded
      ]
    where
      times-more : (i k : ℕ) (is : List ℕ) → times i is ≤ times i (is ++ k ∷ [])
      times-more i k [] = omega arith
      times-more i k (j ∷ is) = omega (arith, times-more i k is)

      times-added : (i k : ℕ) (is : List ℕ) → k ≡ i → 1 ≤ times i (is ++ k ∷ [])
      times-added i k [] same = ground (arith, same)
      times-added i k (j ∷ is) same = omega (arith, times-added i k is same)

      here :
          (gens' : List RcuCslabGen)
          → get_elem? m.slots i ≡ some (present u)
          → get_elem? (hide k u m).slots i ≡ some (pending u)
          → 1 ≤ owners i (later n gens')
          → Guarded n i v m gens
          → Guarded n i v (hide k u m) gens'
      here gens' was now own (inl e) =
          let same : u ≡ v = cc in inr (now ∙ ap (λ (t : T). some (pending t)) same, own)
      here gens' was now own (inr (e, own')) = cc
