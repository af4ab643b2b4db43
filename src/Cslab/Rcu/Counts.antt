-- ===== src/Cslab/Rcu/Counts.antt =====
-- What the reference counts of the generations count, and what a change of one of them does.
use zpr_utils.Base.{
  ℕ, zero, suc, ◌+◌, ◌≤◌, ◌≡◌, ◌⊎◌, subst, length-set, inl, inr, refl, sym, ap, ◌∙◌, Bool, true,
  false, some, List, [], ◌∷◌, length, get_elem?, set, arith,
}
use zpr_utils.Cslab.Rcu.{RcuCslabGen}
use zpr_utils.Cslab.Rcu.Owners.{times, owners}

-- The reference of `cur_gen`, which is to the last generation.
abbrev pub current : List RcuCslabGen → ℕ
current [] = 1
current (g ∷ gens) = 0

abbrev pub followed : List RcuCslabGen → Bool
followed [] = false
followed (g ∷ gens) = true

abbrev pub alive : ℕ → ℕ
alive zero = 0
alive (suc n) = 1

-- Each generation is referred to by its readers, by `cur_gen` if it is the last one, and by the
-- generation before it if that is alive; the first one has `extra` references in place of these. A
-- dropped generation has no pending removals.
abbrev pub Counts : ℕ → List ℕ → List RcuCslabGen → Type 0
Counts extra [] [] = Unit
Counts extra [] (g ∷ gens) = ⊥
Counts extra (r ∷ readers) [] = ⊥
Counts extra (r ∷ readers) (g ∷ gens) =
    (g.strong ≡ r + extra + current gens)
    × (g.next_gen ≡ followed gens)
    × (g.strong ≡ 0 → g.pending_removes ≡ [])
    × Counts (alive g.strong) readers gens

-- While a generation has a reader, the pending removals from it on have the owners they had.
abbrev pub Quiet : ℕ → List RcuCslabGen → List RcuCslabGen → Type 0
Quiet refs gens gens' = 1 ≤ refs → (j : ℕ) → owners j gens' ≡ owners j gens

abbrev pub Keeps : List ℕ → List RcuCslabGen → List RcuCslabGen → Type 0
Keeps [] gens gens' = Unit
Keeps (r ∷ readers) [] gens' = Unit
Keeps (r ∷ readers) (g ∷ gens) [] = ⊥
Keeps (r ∷ readers) (g ∷ gens) (g' ∷ gens') =
    Quiet r (g ∷ gens) (g' ∷ gens') × Keeps readers gens gens'

pub Keeps-refl : (readers : List ℕ) (gens : List RcuCslabGen) → Keeps readers gens gens
Keeps-refl [] gens = tt
Keeps-refl (r ∷ readers) [] = tt
Keeps-refl (r ∷ readers) (g ∷ gens) = (λ h j. refl, Keeps-refl readers gens)

pub alive-pos : (n : ℕ) → 1 ≤ n → alive n ≡ 1
alive-pos zero h = absurd (omega arith)
alive-pos (suc n) h = refl

pub same_length :
    (gens gens' : List RcuCslabGen)
    → length gens' ≡ length gens
    → (current gens' ≡ current gens) × (followed gens' ≡ followed gens)
same_length [] [] e = (refl, refl)
same_length [] (g ∷ gens) e = absurd (omega arith)
same_length (g ∷ gens) [] e = absurd (omega arith)
same_length (g ∷ gens) (g' ∷ gens') e = (refl, refl)

-- The generations after the first change, and remain as many.
pub Counts-tail :
    (extra r : ℕ) (readers readers' : List ℕ) (g : RcuCslabGen) (gens gens' : List RcuCslabGen)
    → Counts extra (r ∷ readers) (g ∷ gens)
    → length gens' ≡ length gens
    → Counts (alive g.strong) readers' gens'
    → Counts extra (r ∷ readers') (g ∷ gens')
Counts-tail extra r readers readers' g gens gens' h len rest =
    let (same_current, same_followed) = same_length gens gens' len in
    (omega (arith, h.0), h.1 ∙ sym same_followed, h.2, rest)

-- The first generation changes, and remains alive.
head-Counts :
    (extra r r' : ℕ) (readers : List ℕ) (g g' : RcuCslabGen) (gens : List RcuCslabGen)
    → Counts extra (r ∷ readers) (g ∷ gens)
    → 1 ≤ g.strong
    → g'.next_gen ≡ g.next_gen
    → g'.strong + r ≡ g.strong + r'
    → r ≤ r'
    → Counts extra (r' ∷ readers) (g' ∷ gens)
head-Counts extra r r' readers g g' gens h pos next strong le =
    let still : alive g'.strong ≡ alive g.strong =
      alive-pos g'.strong (omega arith) ∙ sym (alive-pos g.strong pos) in
    (omega (arith, h.0), next ∙ h.1, λ e. absurd (omega arith), rw still h.3)

-- Generation `n` changes, and its number of readers, and remains alive.
pub Counts-set :
    (n extra r r' : ℕ) (readers : List ℕ) (g g' : RcuCslabGen) (gens : List RcuCslabGen)
    → Counts extra readers gens
    → get_elem? readers n ≡ some r
    → get_elem? gens n ≡ some g
    → 1 ≤ g.strong
    → g'.next_gen ≡ g.next_gen
    → g'.strong + r ≡ g.strong + r'
    → r ≤ r'
    → Counts extra (set readers n r') (set gens n g')
Counts-set n extra r r' [] g g' [] h er eg pos next strong le = cc
Counts-set n extra r r' [] g g' (k ∷ gens) h er eg pos next strong le = absurd h
Counts-set n extra r r' (q ∷ readers) g g' [] h er eg pos next strong le = absurd h
Counts-set zero extra r r' (q ∷ readers) g g' (k ∷ gens) h er eg pos next strong le =
    let here : q ≡ r = cc in
    let first : k ≡ g = cc in
    head-Counts extra r r' readers g g' gens
      (subst (λ t. Counts extra (t ∷ readers) (g ∷ gens)) here
        (subst (λ t. Counts extra (q ∷ readers) (t ∷ gens)) first h))
      pos next strong le
Counts-set (suc n) extra r r' (q ∷ readers) g g' (k ∷ gens) h er eg pos next strong le =
    Counts-tail extra q readers (set readers n r') k gens (set gens n g') h (length-set gens n g')
      (Counts-set n (alive k.strong) r r' readers g g' gens h.3 er eg pos next strong le)

-- A reader keeps its generation alive, and `cur_gen` the last one.
pub strong-pos :
    (n extra : ℕ) (readers : List ℕ) (gens : List RcuCslabGen) (r : ℕ)
    → Counts extra readers gens
    → get_elem? readers n ≡ some r
    → (1 ≤ r) ⊎ (n + 1 ≡ length gens)
    → (g : RcuCslabGen) × (get_elem? gens n ≡ some g) × (1 ≤ g.strong)
strong-pos n extra [] [] r h e last = cc
strong-pos n extra [] (g ∷ gens) r h e last = absurd h
strong-pos n extra (q ∷ readers) [] r h e last = absurd h
strong-pos zero extra (q ∷ readers) (g ∷ gens) r h e (inl some_left) =
    let same : q ≡ r = cc in (g, refl, omega (arith, h.0))
strong-pos zero extra (q ∷ readers) (g ∷ []) r h e (inr last) = (g, refl, omega (arith, h.0))
strong-pos zero extra (q ∷ readers) (g ∷ g' ∷ gens) r h e (inr last) = absurd (omega arith)
strong-pos (suc n) extra (q ∷ readers) (g ∷ gens) r h e last =
    strong-pos n (alive g.strong) readers gens r h.3 e (shift last)
  where
    shift : (1 ≤ r) ⊎ (suc n + 1 ≡ suc (length gens)) → (1 ≤ r) ⊎ (n + 1 ≡ length gens)
    shift (inl k) = inl k
    shift (inr k) = inr (omega arith)

-- The owners when one generation changes.
pub owners-set :
    (n : ℕ) (gens : List RcuCslabGen) (g' : RcuCslabGen) (i : ℕ) {g : RcuCslabGen}
    → get_elem? gens n ≡ some g
    → owners i (set gens n g') + times i g.pending_removes
      ≡ owners i gens + times i g'.pending_removes
owners-set n [] g' i e = cc
owners-set zero (h ∷ gens) g' i {g} e =
    let same : h ≡ g = cc in omega (arith, ap (λ t. times i t.pending_removes) same)
owners-set (suc n) (h ∷ gens) g' i e = omega (arith, owners-set n gens g' i e)
