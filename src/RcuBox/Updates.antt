-- ===== src/RcuBox/Updates.antt =====
-- Calls that change a box, in the order in which they take effect.
use zpr_utils.Base.{subst, ◌≡◌, refl, ap, Option, none, some, List, [], ◌∷◌}
use zpr_utils.RcuBox.{Run, done, blocked, panic, undefined, ◌>>=◌, RcuOps, IsRcuBox, Outcome}

pub data Call (T : Type 0) : Type 0 where
  writes : T → Call T
  updates : (T → Option T) → Call T

abbrev pub or_else {ℓ} : {A : Type ℓ} → Option A → A → A
or_else none a = a
or_else (some b) a = b

module _ {T : Type 0} where
  -- What the calls make of a value.
  abbrev pub apply : Call T → T → T
  apply (writes w) v = w
  apply (updates f) v = or_else (f v) v

  unfoldable pub apply_all : List (Call T) → T → T
  apply_all [] v = v
  apply_all (call ∷ calls) v = apply_all calls (apply call v)

  module _ (ops : RcuOps T) where
    abbrev pub run_call : Call T → ops.Box → Run ops.Box
    run_call (writes w) b = ops.write w b
    run_call (updates f) b = do r ← ops.update f b; done r.0

    unfoldable pub run_calls : List (Call T) → ops.Box → Run ops.Box
    run_calls [] b = done b
    run_calls (call ∷ calls) b = do b' ← run_call call b; run_calls calls b'

  module _ (ops : RcuOps T) (laws : IsRcuBox ops) where
    update-done :
        (f : T → Option T) (b b' : ops.Box)
        → run_call ops (updates f) b ≡ done b'
        → (r : Outcome) × (ops.update f b ≡ done (b', r))
    update-done f b b' run = by_result (ops.update f b) run
      where
        by_result :
            (result : Run (ops.Box × Outcome))
            → (result >>= (λ r. done r.0)) ≡ done b'
            → (r : Outcome) × (result ≡ done (b', r))
        by_result (done (b1, r)) e =
            let same : b1 ≡ b' = cc in (r, ap (λ (t : ops.Box). done (t, r)) same)
        by_result blocked e = cc
        by_result panic e = cc
        by_result undefined e = cc

    call-done :
        (call : Call T) (calls : List (Call T)) (b b' : ops.Box)
        → run_calls ops (call ∷ calls) b ≡ done b'
        → (b1 : ops.Box) × (run_call ops call b ≡ done b1) × (run_calls ops calls b1 ≡ done b')
    unfolding run_calls
    call-done call calls b b' run = by_result (run_call ops call b) run
      where
        by_result :
            (result : Run ops.Box)
            → (result >>= (λ b1. run_calls ops calls b1)) ≡ done b'
            → (b1 : ops.Box) × (result ≡ done b1) × (run_calls ops calls b1 ≡ done b')
        by_result (done b1) e = (b1, refl, e)
        by_result blocked e = cc
        by_result panic e = cc
        by_result undefined e = cc

    -- Whatever calls come to an end while a guard of the box is held, the guard gives the value
    -- that it gave before.
    pub run_calls-pinned :
        (calls : List (Call T)) (b b' : ops.Box) (v : T) (g : ops.Guard)
        → laws.Held b g
        → ops.deref b g ≡ done v
        → run_calls ops calls b ≡ done b'
        → laws.Held b' g × (ops.deref b' g ≡ done v)
    unfolding run_calls
    run_calls-pinned [] b b' v g held item run =
        let same : b ≡ b' = cc in
        (subst (λ t. laws.Held t g) same held, subst (λ t. ops.deref t g ≡ done v) same item)
    run_calls-pinned (writes w ∷ calls) b b' v g held item run =
        let (b1, first, others) = call-done (writes w) calls b b' run in
        let (held1, item1) = laws.write-pinned b b1 w v g held item first in
        run_calls-pinned calls b1 b' v g held1 item1 others
    run_calls-pinned (updates f ∷ calls) b b' v g held item run =
        let (b1, first, others) = call-done (updates f) calls b b' run in
        let (r, updated) = update-done f b b1 first in
        let (held1, item1) = laws.update-pinned f b b1 r v g held item updated in
        run_calls-pinned calls b1 b' v g held1 item1 others
