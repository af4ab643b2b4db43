-- ===== src/Cslab/Rcu/Distinct.antt =====
-- Lists of entries, one of which is taken out.
use zpr_utils.Base.{
  ℕ, ◌+◌, ◌≤◌, ◌≡◌, ◌≢◌, inl, inr, refl, sym, subst, some, List, [], ◌∷◌, ◌++◌, ◌==◌, if◌then◌else◌,
  get_elem?, get_elem?-set_ne, get_elem?-set_self, lt_of_get_elem?, length-set, set, All, arith,
}
use zpr_utils.Cslab.Bitmap.{dec_eq}
use zpr_utils.Cslab.Rcu.Entries.{RcuEntry}
use zpr_utils.Cslab.Rcu.Steps.{entries_of}

pub All-map {ℓ κ μ} :
    {A : Type ℓ} {P : A → Type κ} {Q : A → Type μ} (xs : List A)
    → ((x : A) → P x → Q x)
    → All P xs
    → All Q xs
All-map [] f all = tt
All-map (x ∷ xs) f (p, all) = (f x p, All-map xs f all)

pub All-both {ℓ κ μ} :
    {A : Type ℓ} (P : A → Type κ) (Q : A → Type μ) (xs : List A)
    → All P xs
    → All Q xs
    → All (λ x. P x × Q x) xs
All-both P Q [] ps qs = tt
All-both P Q (x ∷ xs) (p, ps) (q, qs) = ((p, q), All-both P Q xs ps qs)

-- What holds of all holds of the one taken out, and of the others.
pub All-taken {ℓ κ} :
    {A : Type ℓ} (P : A → Type κ) (before behind : List A) (x : A)
    → All P (before ++ x ∷ behind)
    → P x × All P (before ++ behind)
All-taken P [] behind x all = all
All-taken P (y ∷ before) behind x (p, all) =
    let (px, others) = All-taken P before behind x all in (px, (p, others))

module _ {ℓ} {T : Type ℓ} where
  abbrev pub Fresh : ℕ → List (RcuEntry T) → Type 0
  Fresh i xs = All (λ y. y.idx ≢ i) xs

  abbrev pub Distinct : List (RcuEntry T) → Type 0
  Distinct [] = Unit
  Distinct (x ∷ xs) = Fresh x.idx xs × Distinct xs

  pub Distinct-taken :
      (before behind : List (RcuEntry T)) (x : RcuEntry T)
      → Distinct (before ++ x ∷ behind)
      → Fresh x.idx (before ++ behind) × Distinct (before ++ behind)
  Distinct-taken [] behind x d = d
  Distinct-taken (y ∷ before) behind x (fresh, d) =
      let (apart, others) = All-taken (λ z. z.idx ≢ y.idx) before behind x fresh in
      let (fresh', d') = Distinct-taken before behind x d in
      (((λ e. apart (sym e)), fresh'), (others, d'))

  pub entries_of-taken :
      (n : ℕ) (before behind : List (RcuEntry T)) (x : RcuEntry T)
      → entries_of n (before ++ x ∷ behind)
        ≡ (if x.entry_gen == n then 1 else 0) + entries_of n (before ++ behind)
  entries_of-taken n [] behind x = refl
  entries_of-taken n (y ∷ before) behind x = omega (arith, entries_of-taken n before behind x)

  pub entries_of-others :
      (n k : ℕ) (xs : List (RcuEntry T))
      → k ≢ n
      → All (λ x. x.entry_gen ≡ k) xs
      → entries_of n xs ≡ 0
  entries_of-others n k [] other all = refl
  entries_of-others n k (x ∷ xs) other (e, all) =
      ground (arith, other, e, entries_of-others n k xs other all)

  -- A number of readers is set.
  pub Counted-set :
      (readers : List ℕ) (xs ys : List (RcuEntry T)) (k r : ℕ)
      → ((n q : ℕ) → get_elem? readers n ≡ some q → entries_of n xs ≤ q)
      → ((n : ℕ) → k ≢ n → entries_of n ys ≤ entries_of n xs)
      → entries_of k ys ≤ r
      → (n q : ℕ) → get_elem? (set readers k r) n ≡ some q
      → entries_of n ys ≤ q
  Counted-set readers xs ys k r counted others here n q e = elim (dec_eq k n) [
    | inl (same, _) ↦
        let within = lt_of_get_elem? (set readers k r) n e in
        let low = length-set readers k r in
        let now : get_elem? (set readers k r) n ≡ some r =
          subst (λ t. get_elem? (set readers k r) t ≡ some r) same
            (get_elem?-set_self readers k r (ground (arith, within, low, same))) in
        let value : r ≡ q = cc in subst (λ t. entries_of t ys ≤ q) same (omega (arith, here, value))
    | inr (other, _) ↦
        let before : get_elem? readers n ≡ some q =
          subst (λ o. o ≡ some q) (get_elem?-set_ne readers k n r other) e in
        omega (arith, others n other, counted n q before)
  ]
