-- ===== src/RcuBox/Alone.antt =====
-- A call of `write` or `update` without others between its steps.
use zpr_utils.Base.{◌≡◌, refl, Option, none, some, List, [], ◌∷◌}
use zpr_utils.RcuBox.{done}
use zpr_utils.RcuBox.Updates.{Call, writes, updates}
use zpr_utils.RcuBox.Writers.{
  LockedOps, outside, inside, computed, moved, Pc, Writers, enters, computes, refuses, replaces,
  stores, leaves, Reach, start, later, unused,
}

-- What one call on `b` leaves: the box `b'`, and that it alone took effect.
abbrev pub Leaves : {T : Type 0} (ops : LockedOps T) → ops.Box → Call T → ops.Box → Type 0
Leaves ops b call b' =
    (w : Writers ops) × Reach ops (unused ops b) w × (w.box ≡ b') × (w.log ≡ call ∷ [])

module _ {T : Type 0} (ops : LockedOps T) (b l : ops.Box) (locks : ops.lock b ≡ done l) where
  -- The only thread that runs, at some point of its call.
  abbrev alone : ops.Box → Pc T → List (Call T) → Writers ops
  alone box p log = record { box = box; pc = moved (λ i. outside) 0 p; log = log }

  entered : (call : Call T) → Reach ops (unused ops b) (alone l (inside call) [])
  entered call = later start (enters 0 call l refl locks)

  pub write-Leaves : (v : T) → Leaves ops b (writes v) (ops.unlock (ops.write_nonlocked v l))
  write-Leaves v =
      let stored = later (entered (writes v)) (stores 0 v refl) in
      (_, later stored (leaves 0 refl), refl, refl)

  module _ (f : T → Option T) (o : Option T) (seen : ops.inspect f l ≡ done o) where
    found : Reach ops (unused ops b) (record {
      box = l;
      pc = moved (alone l (inside (updates f)) []).pc 0 (computed f o);
      log = [];
    })
    found = later (entered (updates f)) (computes 0 f o refl seen)

  pub update-Leaves-none :
      (f : T → Option T) → ops.inspect f l ≡ done none → Leaves ops b (updates f) (ops.unlock l)
  update-Leaves-none f seen =
      let refused = later (found f none seen) (refuses 0 f refl) in
      (_, later refused (leaves 0 refl), refl, refl)

  pub update-Leaves-some :
      (f : T → Option T) (v : T)
      → ops.inspect f l ≡ done (some v)
      → Leaves ops b (updates f) (ops.unlock (ops.write_nonlocked v l))
  update-Leaves-some f v seen =
      let replaced = later (found f (some v) seen) (replaces 0 f v refl) in
      (_, later replaced (leaves 0 refl), refl, refl)
