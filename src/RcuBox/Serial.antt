-- ===== src/RcuBox/Serial.antt =====
-- Writers that share a box take effect one after the other: the mutex, which is taken before the
-- value is read, keeps a thread's update from being computed from a value that is no longer there.
use zpr_utils.Base.{
  ℕ, ◌==◌, ◌≡◌, ◌≢◌, refl, sym, ◌∙◌, subst, ◌⊎◌, inl, inr, true, false, none, some, List, [], ◌∷◌,
  ◌++◌, arith,
}
use zpr_utils.RcuBox.Updates.{Call, writes, updates, apply, apply_all}
use zpr_utils.RcuBox.Writers.{
  LockedOps, IsLockedBox, Pc, outside, inside, computed, leaving, moved, Writers, Step, enters,
  computes, refuses, replaces, stores, leaves, Reach, start, later, unused,
}

eq-cases : (i j : ℕ) → (i ≡ j) ⊎ (i ≢ j)
eq-cases i j = grind arith

module _ {T : Type 0} where
  apply_all-append :
      (calls : List (Call T)) (call : Call T) (v : T)
      → apply_all (calls ++ (call ∷ [])) v ≡ apply call (apply_all calls v)
  unfolding apply_all
  apply_all-append [] call v = refl
  apply_all-append (c ∷ calls) call v = apply_all-append calls call (apply c v)

  moved-same : (pc : ℕ → Pc T) (i : ℕ) (p : Pc T) → moved pc i p i ≡ p
  moved-same pc i p = let same : (i == i) ≡ true = ground arith in rw same refl

  moved-other : (pc : ℕ → Pc T) (i j : ℕ) (p : Pc T) → j ≢ i → moved pc i p j ≡ pc j
  moved-other pc i j p ne = let other : (j == i) ≡ false = ground arith in rw other refl

  -- What is true of a thread that has the mutex, when the value is `v`.
  abbrev IsOwner : Pc T → T → Type 0
  IsOwner outside v = ⊥
  IsOwner (inside call) v = Unit
  IsOwner (computed f o) v = o ≡ f v
  IsOwner leaving v = Unit

module _ {T : Type 0} (ops : LockedOps T) (laws : IsLockedBox ops) (v : T) where
  abbrev AllOutside : (ℕ → Pc T) → Type 0
  AllOutside pc = (i : ℕ) → pc i ≡ outside

  abbrev Owned : ℕ → Writers ops → Type 0
  Owned i w =
      (laws.is_locked w.box ≡ true)
      × ((j : ℕ) → j ≢ i → w.pc j ≡ outside)
      × IsOwner (w.pc i) (apply_all w.log v)

  -- The box holds what the calls that took effect make of the first value, and the mutex is free,
  -- or one thread has it.
  abbrev Inv : Writers ops → Type 0
  Inv w =
      laws.Holds w.box (apply_all w.log v)
      × (((laws.is_locked w.box ≡ false) × AllOutside w.pc) ⊎ ((i : ℕ) × Owned i w))

  owner : (w : Writers ops) (i : ℕ) → Inv w → w.pc i ≢ outside → Owned i w
  owner w i (holds, inl (free, all)) busy = absurd (busy (all i))
  owner w i (holds, inr (k, owned)) busy = elim (eq-cases i k) [
    | inl same ↦ subst (λ t. Owned t w) (sym same) owned
    | inr other ↦ absurd (busy (owned.1 i other))
  ]

  owned-Inv :
      (w : Writers ops) (i : ℕ) (p : Pc T) (b : ops.Box) (log : List (Call T))
      → ((j : ℕ) → j ≢ i → w.pc j ≡ outside)
      → laws.Holds b (apply_all log v)
      → laws.is_locked b ≡ true
      → IsOwner p (apply_all log v)
      → Inv (record { box = b; pc = moved w.pc i p; log = log })
  owned-Inv w i p b log others holds locked good = (
    holds,
    inr (
      i,
      (
        locked,
        (λ j ne. moved-other w.pc i j p ne ∙ others j ne),
        subst (λ t. IsOwner t (apply_all log v)) (sym (moved-same w.pc i p)) good,
      ),
    ),
  )

  -- The same after a call took effect.
  called-Inv :
      (w : Writers ops) (i : ℕ) (call : Call T) (b : ops.Box) (u : T)
      → Owned i w
      → laws.Holds b u
      → laws.is_locked b ≡ true
      → apply call (apply_all w.log v) ≡ u
      → Inv (record { box = b; pc = moved w.pc i leaving; log = w.log ++ (call ∷ []) })
  called-Inv w i call b u owned holds locked e =
      let after : apply_all (w.log ++ (call ∷ [])) v ≡ u = apply_all-append w.log call v ∙ e in
      owned-Inv w i leaving b (w.log ++ (call ∷ [])) owned.1
        (subst (laws.Holds b) (sym after) holds) locked tt

  Step-Inv : {w w' : Writers ops} → Step ops w w' → Inv w → Inv w'
  Step-Inv {w} (enters i call b out locks) (holds, state) =
      let (free, locked, holds') = laws.lock-Holds w.box b (apply_all w.log v) locks holds in
      elim state [
        | inl unowned ↦ owned-Inv w i (inside call) b w.log (λ j ne. unowned.1 j) holds' locked tt
        | inr (k, owned) ↦ let both : true ≡ false = sym owned.0 ∙ free in cc
      ]
  Step-Inv {w} (computes i f o at runs) inv =
      let owned = owner w i inv (λ out. cc) in
      let result = laws.inspect-Holds f w.box (apply_all w.log v) inv.0 in
      owned-Inv w i (computed f o) w.box w.log owned.1 inv.0 owned.0 cc
  Step-Inv {w} (refuses i f at) inv =
      let owned = owner w i inv (λ out. cc) in
      let refused : none ≡ f (apply_all w.log v) =
        subst (λ t. IsOwner t (apply_all w.log v)) at owned.2 in
      called-Inv w i (updates f) w.box (apply_all w.log v) owned inv.0 owned.0
        (rw (sym refused) refl)
  Step-Inv {w} (replaces i f u at) inv =
      let owned = owner w i inv (λ out. cc) in
      let found : some u ≡ f (apply_all w.log v) =
        subst (λ t. IsOwner t (apply_all w.log v)) at owned.2 in
      let (same, holds) = laws.write_nonlocked-Holds w.box u in
      called-Inv w i (updates f) (ops.write_nonlocked u w.box) u owned holds (same ∙ owned.0)
        (rw (sym found) refl)
  Step-Inv {w} (stores i u at) inv =
      let owned = owner w i inv (λ out. cc) in
      let (same, holds) = laws.write_nonlocked-Holds w.box u in
      called-Inv w i (writes u) (ops.write_nonlocked u w.box) u owned holds (same ∙ owned.0) refl
  Step-Inv {w} (leaves i at) inv =
      let owned = owner w i inv (λ out. cc) in
      let (free, holds) = laws.unlock-Holds w.box (apply_all w.log v) inv.0 in
      (
        holds,
        inl (
          free,
          (λ j. elim (eq-cases j i) [
            | inl same ↦
                subst (λ t. moved w.pc i outside t ≡ outside) (sym same) (moved-same w.pc i outside)
            | inr other ↦ moved-other w.pc i j outside other ∙ owned.1 j other
          ]),
        ),
      )

  -- Whatever steps threads take, the box holds what the calls that took effect make of its first
  -- value, one after the other.
  pub reach-Holds :
      (b : ops.Box)
      → laws.Holds b v
      → laws.is_locked b ≡ false
      → (w : Writers ops) → Reach ops (unused ops b) w
      → laws.Holds w.box (apply_all w.log v)
  unfolding apply_all
  reach-Holds b holds free w reach = (keeps reach).0
    where
      keeps : {w' : Writers ops} → Reach ops (unused ops b) w' → Inv w'
      keeps start = (holds, inl (free, λ i. refl))
      keeps (later before step) = Step-Inv step (keeps before)
