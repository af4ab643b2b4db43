-- ===== src/RcuBox/Guards.antt =====
-- rcu/src/rcu.rs: what is written against every implementation: `clone_inner`, `read`, `default`,
-- `from`, `RcuOptionGuard`, and `RcuCslabEntryGuard` with `get_guarded` and `find_guarded`, which
-- are given the slab as it is at the time.
use zpr_utils.Base.{ℕ, zero, suc, ◌+◌, Bool, true, false, Option, none, some, Result, ok, err}
use zpr_utils.Base.Exec
use zpr_utils.Base.Exec.{Exec}
use zpr_utils.Cslab.Iter.{Iter, next}
use zpr_utils.Cslab.Rcu.{RcuCslab, RcuCslabReader}
use zpr_utils.Cslab.Rcu.Entries.{reader_contains_key, reader_get_unchecked, reader_iter}
use zpr_utils.RcuBox.{Run, done, panic, undefined, ◌>>=◌, unwrap_unchecked, RcuOps}

abbrev pub running {ℓ} : {A : Type ℓ} → Exec A → Run A
running (Exec.value a) = done a
running Exec.panic = panic
running Exec.undefined = undefined

-- `Iterator::find`, on fuel; to run out of it counts as undefined.
unfoldable pub find {ℓ} : {T : Type ℓ} → ℕ → (ℕ × T → Bool) → Iter T → Exec (Option (ℕ × T))
unfolding next
find zero predicate it = Exec.undefined
find (suc fuel) predicate it = Exec.◌>>=◌ (next it) (λ r. elim r.1 [
  | none ↦ Exec.value none
  | some x ↦ elim (predicate x) [ true ↦ Exec.value (some x) | false ↦ find fuel predicate r.0 ]
])

module _ {T : Type 0} (ops : RcuOps T) where
  -- The clone of a value is the value.
  unfoldable pub clone_inner : ops.Box → Run T
  clone_inner b = ops.inspect (λ item. item) b

  unfoldable pub read : ops.Box → Run T
  read b = ops.inspect (λ item. item) b

  -- `Default` and `From`.
  unfoldable pub default_box : T → ops.Box
  default_box default_value = ops.new default_value

  unfoldable pub from : T → ops.Box
  from v = ops.new v

module _ {T : Type 0} (ops : RcuOps (Option T)) where
  -- `RcuOptionGuard`.
  pub record RcuOptionGuard : Type 0 where
    pub guard : ops.Guard

  unfoldable pub option_deref : ops.Box → RcuOptionGuard → Run T
  option_deref b g = do o ← ops.deref b g.guard; unwrap_unchecked o

  abbrev checked : ops.Guard → Option T → Option RcuOptionGuard
  checked g none = none
  checked g (some v) = some (record { guard = g })

  unfoldable pub option_from : ops.Box → ops.Guard → Run (Option RcuOptionGuard)
  option_from b g = do o ← ops.deref b g; done (checked g o)

  abbrev or_error : Option RcuOptionGuard → Result (Unit {0}) RcuOptionGuard
  or_error none = err tt
  or_error (some g) = ok g

  unfoldable pub option_try_from : ops.Box → ops.Guard → Run (Result (Unit {0}) RcuOptionGuard)
  option_try_from b g = do o ← ops.deref b g; done (or_error (checked g o))

module _ (ops : RcuOps RcuCslabReader) where
  pub record RcuCslabEntryGuard : Type 0 where
    pub guard : ops.Guard
    pub key : ℕ

  unfoldable pub entry_guard_deref :
      {T : Type 0} → RcuCslab T → ops.Box → RcuCslabEntryGuard → Run T
  entry_guard_deref s b e = do r ← ops.deref b e.guard; running (reader_get_unchecked r s e.key)

  abbrev pub entry_if : Bool → ops.Guard → ℕ → Option RcuCslabEntryGuard
  entry_if false g key = none
  entry_if true g key = some (record { guard = g; key = key })

  unfoldable pub get_guarded :
      {T : Type 0} → RcuCslab T → ℕ → ops.Box → Run (ops.Box × Option RcuCslabEntryGuard)
  get_guarded s key b = do
    got ← ops.get b
    r ← ops.deref got.0 got.1
    present ← running (reader_contains_key r s key)
    done (got.0, entry_if present got.1 key)

  abbrev entry_at : {T : Type 0} → Option (ℕ × T) → ops.Guard → Option (ℕ × RcuCslabEntryGuard)
  entry_at none g = none
  entry_at (some x) g = some (x.0, record { guard = g; key = x.0 })

  unfoldable pub find_guarded :
      {T : Type 0}
      → RcuCslab T
      → (ℕ × T → Bool)
      → ops.Box
      → Run (ops.Box × Option (ℕ × RcuCslabEntryGuard))
  find_guarded s predicate b = do
    got ← ops.get b
    r ← ops.deref got.0 got.1
    it ← running (reader_iter r s)
    found ← running (find (s.writer.frontier + 1) predicate it)
    done (got.0, entry_at found got.1)
