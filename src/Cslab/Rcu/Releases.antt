-- ===== src/Cslab/Rcu/Releases.antt =====
-- The drop of a reference, under the counts: it never panics, drops what is no longer referred to
-- and its pending removals, and nothing from a generation on that still has a reader.
use zpr_utils.Base.{
  ℕ, zero, suc, ◌+◌, ◌-◌, ◌≤◌, ◌≡◌, inl, inr, refl, sym, ap, ◌∙◌, subst, Bool-cases, true, false,
  some, List, [], ◌∷◌, ◌==◌, length, get_elem?, set, arith,
}
use zpr_utils.Base.Exec.{Exec, value}
use zpr_utils.Cslab.Slab.{Cslab}
use zpr_utils.Cslab.Model.{Model}
use zpr_utils.Cslab.Represents.{Represents}
use zpr_utils.Cslab.Rcu.{RcuCslabGen, release, release_at, finalize_all}
use zpr_utils.Cslab.Rcu.Owners.{times, owners, Owned, Drops, Drops-trans, finalize_all-Owned}
use zpr_utils.Cslab.Rcu.Counts.{
  current, followed, alive, alive-pos, Counts, Counts-tail, Quiet, Keeps, Keeps-refl, same_length,
}

not_current : (gens : List RcuCslabGen) → current gens ≡ 0 → 1 ≤ length gens
not_current [] e = absurd (omega arith)
not_current (g ∷ gens) e = omega arith

is_followed : (gens : List RcuCslabGen) → 1 ≤ length gens → followed gens ≡ true
is_followed [] h = absurd (omega arith)
is_followed (g ∷ gens) h = refl

module _ {ℓ} {T : Type ℓ} where
  -- What a drop of a reference leaves: `frame` owns the removals of the generations before these.
  pub record Released (extra : ℕ) (readers : List ℕ) (gens : List RcuCslabGen) (m : Model T)
      (frame : ℕ → ℕ) (gens' : List RcuCslabGen) (c' : Cslab T) (m' : Model T) : Type ℓ where
    pub rep : Represents c' m'
    pub counts : Counts extra readers gens'
    pub owned : Owned (λ j. owners j gens' + frame j) m'
    pub len : length gens' ≡ length gens
    pub drops : Drops m m'
    pub quiet : Quiet extra gens gens'
    pub keeps : Keeps readers gens gens'

  abbrev pub Releases :
      ℕ → List ℕ → List RcuCslabGen → Model T → (ℕ → ℕ) → Exec (List RcuCslabGen × Cslab T) → Type ℓ
  Releases extra readers gens m frame run =
      (gens' : List RcuCslabGen) × (c' : Cslab T) × (m' : Model T) × (run ≡ value (gens', c'))
      × Released extra readers gens m frame gens' c' m'

  -- A reference that is not the last.
  pub release-shared :
      (g : RcuCslabGen) (gens : List RcuCslabGen) (c : Cslab T)
      → (g.strong == 1) ≡ false
      → release (g ∷ gens) c ≡ value (record g { strong = g.strong - 1 } ∷ gens, c)
  unfolding release
  release-shared g gens c more = rw (release, more) refl

  -- The last one, of a generation that has one after it.
  release-last :
      (g : RcuCslabGen) (gens : List RcuCslabGen) (c c1 : Cslab T) (items : List T)
      (gens' : List RcuCslabGen) (c' : Cslab T)
      → (g.strong == 1) ≡ true
      → g.next_gen ≡ true
      → finalize_all g.pending_removes c ≡ value (c1, items)
      → release gens c1 ≡ value (gens', c')
      → release (g ∷ gens) c ≡ value (record g { strong = 0; pending_removes = [] } ∷ gens', c')
  unfolding release
  release-last g gens c c1 items gens' c' last next finalized released =
      rw (release, last, finalized, next, released) refl

  shared-Released :
      (extra r : ℕ) (readers : List ℕ) (g : RcuCslabGen) (gens : List RcuCslabGen) (c : Cslab T)
      (m : Model T) (frame : ℕ → ℕ)
      → Represents c m
      → Counts (suc extra) (r ∷ readers) (g ∷ gens)
      → Owned (λ j. owners j (g ∷ gens) + frame j) m
      → 2 ≤ g.strong
      → Released extra
          (r ∷ readers)
          (g ∷ gens)
          m
          frame
          (record g { strong = g.strong - 1 } ∷ gens)
          c
          m
  shared-Released extra r readers g gens c m frame rep counts owned two = record {
    rep = rep;
    counts =
        let still =
          alive-pos (g.strong - 1) (omega arith) ∙ sym (alive-pos g.strong (omega arith)) in
        (omega (arith, counts.0), counts.1, λ e. absurd (omega arith), rw still counts.3);
    owned = owned;
    len = refl;
    drops = λ j. inl refl;
    quiet = λ h j. refl;
    keeps = (λ h j. refl, Keeps-refl readers gens);
  }

  last-Released :
      (extra r : ℕ) (readers : List ℕ) (g : RcuCslabGen) (gens : List RcuCslabGen) (m m1 : Model T)
      (frame : ℕ → ℕ) (gens' : List RcuCslabGen) (c' : Cslab T) (m' : Model T)
      → g.strong ≡ 1
      → Counts (suc extra) (r ∷ readers) (g ∷ gens)
      → Drops m m1
      → Released 0 readers gens m1 frame gens' c' m'
      → Released extra
          (r ∷ readers)
          (g ∷ gens)
          m
          frame
          (record g { strong = 0; pending_removes = [] } ∷ gens')
          c'
          m'
  last-Released extra r readers g gens m m1 frame gens' c' m' one counts drops left =
      let same = same_length gens gens' left.len in
      record {
        rep = left.rep;
        counts = (omega (arith, counts.0, same.0), counts.1 ∙ sym same.1, λ _. refl, left.counts);
        owned = λ j. omega (arith, left.owned j);
        len = ap suc left.len;
        drops = Drops-trans m m1 m' drops left.drops;
        quiet = λ h. absurd (omega (arith, counts.0));
        keeps = (λ h. absurd (omega (arith, counts.0)), left.keeps);
      }

  pub release-Released :
      (extra : ℕ) (readers : List ℕ) (gens : List RcuCslabGen) (c : Cslab T) (m : Model T)
      (frame : ℕ → ℕ)
      → Represents c m
      → Counts (suc extra) readers gens
      → Owned (λ j. owners j gens + frame j) m
      → 1 ≤ length gens
      → Releases extra readers gens m frame (release gens c)
  release-Released extra readers [] c m frame rep counts owned some_left = absurd (omega arith)
  release-Released extra [] (g ∷ gens) c m frame rep counts owned some_left = absurd counts
  release-Released extra (r ∷ readers) (g ∷ gens) c m frame rep counts owned some_left =
      elim (Bool-cases (g.strong == 1)) [
        | inr more ↦ (
          record g { strong = g.strong - 1 } ∷ gens,
          c,
          m,
          release-shared g gens c more,
          shared-Released extra r readers g gens c m frame rep counts owned
              (ground (arith, counts.0)),
        )
        | inl last ↦
            let one : g.strong ≡ 1 = ground arith in
            let next_left = not_current gens (omega (arith, counts.0)) in
            let (c1, m1, items, runs, rep1, owned1, drops1) =
              finalize_all-Owned g.pending_removes (λ j. owners j gens + frame j) c m rep
                (λ j. omega (arith, owned j)) in
            let counts1 : Counts 1 readers gens =
              subst (λ t. Counts t readers gens) (ap alive one) counts.3 in
            let (gens', c', m', runs', left) =
              release-Released 0 readers gens c1 m1 frame rep1 counts1 owned1 next_left in
            (
              record g { strong = 0; pending_removes = [] } ∷ gens',
              c',
              m',
              release-last g gens c c1 items gens' c' last (counts.1 ∙ is_followed gens next_left)
                  runs runs',
              last-Released extra r readers g gens m m1 frame gens' c' m' one counts drops1 left,
            )
      ]

  -- The generations before the one that the reference is to stay as they are.
  later-Released :
      (extra r : ℕ) (readers readers' : List ℕ) (g : RcuCslabGen) (gens : List RcuCslabGen)
      (m : Model T) (frame : ℕ → ℕ) (gens' : List RcuCslabGen) (c' : Cslab T) (m' : Model T)
      → Counts extra (r ∷ readers) (g ∷ gens)
      → Released
          (alive g.strong)
          readers'
          gens
          m
          (λ j. frame j + times j g.pending_removes)
          gens'
          c'
          m'
      → Released extra (r ∷ readers') (g ∷ gens) m frame (g ∷ gens') c' m'
  later-Released extra r readers readers' g gens m frame gens' c' m' counts left =
      let rest : 1 ≤ g.strong → (j : ℕ) → owners j (g ∷ gens') ≡ owners j (g ∷ gens) = λ pos j.
        ap (λ (t : ℕ). times j g.pending_removes + t)
          (left.quiet (omega (arith, alive-pos g.strong pos)) j) in
      record {
        rep = left.rep;
        counts = Counts-tail extra r readers readers' g gens gens' counts left.len left.counts;
        owned = λ j. omega (arith, left.owned j);
        len = ap suc left.len;
        drops = left.drops;
        quiet = λ h. rest (omega (arith, counts.0));
        keeps = (λ h. rest (omega (arith, counts.0)), left.keeps);
      }

  -- Dropping a reader of generation `n`.
  pub release_at-Released :
      (n extra r : ℕ) (readers : List ℕ) (gens : List RcuCslabGen) (c : Cslab T) (m : Model T)
      (frame : ℕ → ℕ)
      → Represents c m
      → Counts extra readers gens
      → Owned (λ j. owners j gens + frame j) m
      → get_elem? readers n ≡ some (suc r)
      → Releases extra (set readers n r) gens m frame (release_at n gens c)
  unfolding release_at
  release_at-Released n extra r [] gens c m frame rep counts owned e = cc
  release_at-Released n extra r (q ∷ readers) [] c m frame rep counts owned e = absurd counts
  release_at-Released zero extra r (q ∷ readers) (g ∷ gens) c m frame rep counts owned e =
      let here : q ≡ suc r = cc in
      release-Released extra (r ∷ readers) (g ∷ gens) c m frame rep
        (omega (arith, counts.0), counts.1, counts.2, counts.3) owned (omega arith)
  release_at-Released (suc n) extra r (q ∷ readers) (g ∷ gens) c m frame rep counts owned e =
      let (gens', c', m', runs, left) =
        release_at-Released n (alive g.strong) r readers gens c m
          (λ j. frame j + times j g.pending_removes) rep counts.3 (λ j. omega (arith, owned j)) e in
      (
        g ∷ gens',
        c',
        m',
        rw runs refl,
        later-Released extra q readers (set readers n r) g gens m frame gens' c' m' counts left,
      )
