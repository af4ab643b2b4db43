-- ===== src/Cslab/Iter.antt =====
-- cslab/src/lib.rs: `Iter`, which scans the bitmap from both ends, and `ExclIter`.
pub mod Seen
pub mod Scan
pub mod Forward
pub mod Backward
pub mod Collect
pub mod Drops
pub mod Among
use zpr_utils.Base.{
  ℕ, zero, suc, ◌+◌, ◌-◌, ◌*◌, ◌/◌, ◌%◌, ◌^◌, Bool, true, false, Option, none, some, List, [], ◌∷◌,
  leb, ◌==◌, if◌then◌else◌,
}
use zpr_utils.Base.Zeros.{trailing_zeros, leading_zeros}
use zpr_utils.Base.Exec.{Exec, value, panic, undefined, ◌>>=◌, ◌>>◌, assert, index}
use zpr_utils.Cslab.Storage.{bits, CslabStorage, get_unchecked_impl}
use zpr_utils.Cslab.Slab.{Cslab}

pub record Iter {ℓ} (T : Type ℓ) : Type ℓ where
  pub storage : CslabStorage T
  pub head : ℕ
  pub tail : ℕ

pub record ExclIter {ℓ} (T : Type ℓ) : Type ℓ where
  pub iter : Iter T
  pub in_use : ℕ

-- `bme` of `next`: the rest of head's word, shifted down. `bme` of `next_back`: the part of the
-- word up to the index before tail, shifted up.
abbrev pub shifted_down : ℕ → ℕ → ℕ
shifted_down word head = word / 2 ^ (head % bits)

abbrev pub shifted_up : ℕ → ℕ → ℕ
shifted_up word last = word * 2 ^ (bits - (last % bits + 1)) % 2 ^ 64

-- The distance to the next item or bitmap entry.
abbrev pub distance : ℕ → ℕ → ℕ
distance bme head = if bme == 0 then bits - head % bits else trailing_zeros 64 bme

abbrev pub distance_back : ℕ → ℕ → ℕ
distance_back bme last = if bme == 0 then last % bits + 1 else leading_zeros 64 bme

module _ {ℓ} {T : Type ℓ} where
  unfoldable pub iter_new : CslabStorage T → Exec (Iter T)
  iter_new storage = do
    assert (leb storage.frontier storage.size)
    value (record { storage = storage; head = 0; tail = storage.frontier })

  -- The loops of `next` and `next_back`, on fuel; to run out of it counts as undefined.
  unfoldable pub next_loop : ℕ → Iter T → Exec (Iter T × Option (ℕ × T))
  next_loop zero it = undefined
  next_loop (suc fuel) it = do
    word ← index it.storage.bitmap (it.head / bits)
    let bme = shifted_down word it.head
    let d = distance bme it.head
    elim (leb (it.tail - it.head) d) [
      | true ↦ value (record it { head = it.tail }, none)
      | false ↦ elim (bme == 0) [
        | true ↦ next_loop fuel (record it { head = it.head + d })
        | false ↦ do
          v ← get_unchecked_impl it.storage (it.head + d)
          value (record it { head = it.head + d + 1 }, some (it.head + d, v))
      ]
    ]

  unfoldable pub next : Iter T → Exec (Iter T × Option (ℕ × T))
  unfolding next_loop
  next it = if leb it.tail it.head then value (it, none) else next_loop (it.tail - it.head) it

  unfoldable pub next_back_loop : ℕ → Iter T → Exec (Iter T × Option (ℕ × T))
  next_back_loop zero it = undefined
  next_back_loop (suc fuel) it = do
    word ← index it.storage.bitmap ((it.tail - 1) / bits)
    let bme = shifted_up word (it.tail - 1)
    let d = distance_back bme (it.tail - 1)
    elim (leb (it.tail - it.head) d) [
      | true ↦ value (record it { tail = it.head }, none)
      | false ↦ elim (bme == 0) [
        | true ↦ next_back_loop fuel (record it { tail = it.tail - d })
        | false ↦ do
          v ← get_unchecked_impl it.storage (it.tail - d - 1)
          value (record it { tail = it.tail - d - 1 }, some (it.tail - d - 1, v))
      ]
    ]

  unfoldable pub next_back : Iter T → Exec (Iter T × Option (ℕ × T))
  unfolding next_back_loop
  next_back it =
      if leb it.tail it.head then value (it, none) else next_back_loop (it.tail - it.head) it

  -- `Cslab::iter`, and what the iterator says about its length.
  unfoldable pub iter : Cslab T → Exec (ExclIter T)
  unfolding iter_new
  iter c = do it ← iter_new c.storage; value (record { iter = it; in_use = c.in_use })

  pub size_hint : Iter T → ℕ × Option ℕ
  size_hint it = (0, some (it.tail - it.head))

  pub excl_size_hint : ExclIter T → ℕ × Option ℕ
  excl_size_hint it = (it.in_use, some it.in_use)

  unfoldable pub count : ExclIter T → ℕ
  count it = it.in_use

  unfoldable pub excl_next : ExclIter T → Exec (ExclIter T × Option (ℕ × T))
  unfolding next
  excl_next it = do r ← next it.iter; value (record it { iter = r.0 }, r.1)

  unfoldable pub excl_next_back : ExclIter T → Exec (ExclIter T × Option (ℕ × T))
  unfolding next_back
  excl_next_back it = do r ← next_back it.iter; value (record it { iter = r.0 }, r.1)
