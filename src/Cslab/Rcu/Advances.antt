-- ===== src/Cslab/Rcu/Advances.antt =====
-- A new generation after the current one, under the counts.
use zpr_utils.Base.{
  ℕ, zero, suc, ◌+◌, ◌≡◌, refl, sym, ap, ◌∙◌, true, false, some, List, [], ◌∷◌, ◌++◌, length,
  length-append, length-set, get_elem?, set, arith,
}
use zpr_utils.Cslab.Rcu.{RcuCslabGen, add_ref, new_gen}
use zpr_utils.Cslab.Rcu.Owners.{times, owners}
use zpr_utils.Cslab.Rcu.Counts.{alive, alive-pos, Counts}

module _ {ℓ} {A : Type ℓ} where
  pub get_elem?-set_append :
      (xs zs : List A) (n : ℕ) (x y : A)
      → get_elem? xs n ≡ some x
      → get_elem? (set xs n y ++ zs) n ≡ some y
  get_elem?-set_append [] zs n x y e = cc
  get_elem?-set_append (z ∷ xs) zs zero x y e = refl
  get_elem?-set_append (z ∷ xs) zs (suc n) x y e = get_elem?-set_append xs zs n x y e

  -- A change that is taken back.
  pub set_back :
      (xs zs : List A) (n : ℕ) (x y : A)
      → get_elem? xs n ≡ some x
      → set (set xs n y ++ zs) n x ≡ xs ++ zs
  set_back [] zs n x y e = cc
  set_back (z ∷ xs) zs zero x y e =
      let same : z ≡ x = cc in ap (λ (t : A). t ∷ (xs ++ zs)) (sym same)
  set_back (z ∷ xs) zs (suc n) x y e = ap (λ t. z ∷ t) (set_back xs zs n x y e)

-- The generations with one more after the last, which for now has a reader more.
abbrev pub extended : List RcuCslabGen → ℕ → RcuCslabGen → List RcuCslabGen
extended gens n g = set gens n (record g { next_gen = true }) ++ add_ref new_gen ∷ []

pub length-extended :
    (gens : List RcuCslabGen) (n : ℕ) (g : RcuCslabGen)
    → length (extended gens n g) ≡ length gens + 1
length-extended gens n g = omega (
  arith,
  length-append (set gens n (record g { next_gen = true })) (add_ref new_gen ∷ []),
  length-set gens n (record g { next_gen = true }),
)

pub owners-extended :
    (gens : List RcuCslabGen) (n : ℕ) (g : RcuCslabGen) (j : ℕ)
    → get_elem? gens n ≡ some g
    → owners j (extended gens n g) ≡ owners j gens
owners-extended [] n g j e = cc
owners-extended (k ∷ gens) zero g j e =
    let same : k ≡ g = cc in
    omega (arith, owners-append gens, ap (λ t. times j t.pending_removes) same)
  where
    owners-append : (ks : List RcuCslabGen) → owners j (ks ++ add_ref new_gen ∷ []) ≡ owners j ks
    owners-append [] = refl
    owners-append (k ∷ ks) = ap (λ (t : ℕ). times j k.pending_removes + t) (owners-append ks)
owners-extended (k ∷ gens) (suc n) g j e =
    ap (λ (t : ℕ). times j k.pending_removes + t) (owners-extended gens n g j e)

-- The last generation has none after it.
pub last-unfollowed :
    (extra : ℕ) (readers : List ℕ) (gens : List RcuCslabGen) (n : ℕ) (g : RcuCslabGen)
    → Counts extra readers gens
    → n + 1 ≡ length gens
    → get_elem? gens n ≡ some g
    → g.next_gen ≡ false
last-unfollowed extra readers [] n g h last e = cc
last-unfollowed extra [] (k ∷ gens) n g h last e = absurd h
last-unfollowed extra (r ∷ readers) (k ∷ []) zero g h last e =
    let same : k ≡ g = cc in sym (ap (λ t. t.next_gen) same) ∙ h.1
last-unfollowed extra (r ∷ readers) (k ∷ k' ∷ gens) zero g h last e = absurd (omega arith)
last-unfollowed extra (r ∷ readers) (k ∷ gens) (suc n) g h last e =
    last-unfollowed (alive k.strong) readers gens n g h.3 (omega arith) e

pub Counts-extended :
    (extra r : ℕ) (readers : List ℕ) (gens : List RcuCslabGen) (n : ℕ) (g : RcuCslabGen)
    → Counts extra readers gens
    → n + 1 ≡ length gens
    → get_elem? readers n ≡ some r
    → get_elem? gens n ≡ some g
    → Counts extra (set readers n (suc r) ++ 0 ∷ []) (extended gens n g)
Counts-extended extra r readers [] n g h last er eg = cc
Counts-extended extra r [] (k ∷ gens) n g h last er eg = absurd h
Counts-extended extra r (q ∷ readers) (k ∷ k' ∷ gens) zero g h last er eg = absurd (omega arith)
Counts-extended extra r (q ∷ q' ∷ readers) (k ∷ []) zero g h last er eg = absurd h.3
Counts-extended extra r (q ∷ []) (k ∷ []) zero g h last er eg =
    let same : g.strong ≡ k.strong = cc in
    let same_readers : q ≡ r = cc in
    let one : alive g.strong ≡ 1 = alive-pos g.strong (omega (arith, h.0)) in
    (
      omega (arith, h.0),
      refl,
      λ e. absurd (omega (arith, h.0)),
      (omega arith, refl, λ e. absurd (omega arith), tt),
    )
Counts-extended extra r (q ∷ readers) (k ∷ []) (suc n) g h last er eg = absurd (omega arith)
Counts-extended extra r (q ∷ readers) (k ∷ k' ∷ gens) (suc zero) g h last er eg = (
  omega (arith, h.0),
  h.1,
  h.2,
  Counts-extended (alive k.strong) r readers (k' ∷ gens) zero g h.3 (omega arith) er eg,
)
Counts-extended extra r (q ∷ readers) (k ∷ k' ∷ gens) (suc (suc n)) g h last er eg = (
  omega (arith, h.0),
  h.1,
  h.2,
  Counts-extended (alive k.strong) r readers (k' ∷ gens) (suc n) g h.3 (omega arith) er eg,
)
