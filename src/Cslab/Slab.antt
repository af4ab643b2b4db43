-- ===== src/Cslab/Slab.antt =====
-- cslab/src/lib.rs: `Cslab`, the writer's side of a slab, and `VacantEntry`.
use zpr_utils.Base.{
  ℕ, ◌+◌, ◌-◌, ◌/◌, ◌%◌, ◌^◌, bit_and, bit_or, Option, leb, ◌==◌, if◌then◌else◌, set, Result, ok,
  err,
}
use zpr_utils.Base.Int.{pos, sub_ℕ, ◌+ℤ◌, as_usize}
use zpr_utils.Base.Exec.{Exec, value, panic, ◌>>=◌, ◌>>◌, assert, index, add_usize, sub_usize}
use zpr_utils.Cslab.Storage.{
  bits, next_free, item, CslabStorage, read_next_free, read_item, flag, storage_with_fixed_capacity,
  get_impl, Allocation,
}

pub record Cslab {ℓ} (T : Type ℓ) : Type ℓ where
  pub first_free : ℕ
  pub in_use : ℕ
  pub allocated : ℕ
  pub storage : CslabStorage T
  pub open storage use *

-- What a method that may fail with `()` returns.
abbrev pub Fallible {ℓ} : Type ℓ → Type ℓ
Fallible A = Result (Unit {0}) A

-- The store of a flag: `word` with the bit of `idx` set, or cleared.
abbrev pub with_flag : ℕ → ℕ → ℕ
with_flag word idx = bit_or word (2 ^ (idx % bits))

abbrev pub without_flag : ℕ → ℕ → ℕ
without_flag word idx = bit_and word (2 ^ 64 - 1 - 2 ^ (idx % bits))

-- `VacantEntry` is the slab itself, borrowed while a slot is known to be free.
pub record VacantEntry {ℓ} (T : Type ℓ) : Type ℓ where
  pub slab : Cslab T

module _ {ℓ} {T : Type ℓ} where
  unfoldable pub with_fixed_capacity : (ℕ → Allocation) → ℕ → Exec (Cslab T)
  with_fixed_capacity allocates capacity = do
    storage ← storage_with_fixed_capacity allocates capacity
    value (record { first_free = 0; in_use = 0; allocated = 0; storage = storage })

  unfoldable pub capacity : Cslab T → ℕ
  capacity c = c.size

  unfoldable pub len : Cslab T → ℕ
  len c = c.in_use

  unfoldable pub allocated_len : Cslab T → ℕ
  allocated_len c = c.allocated

  unfoldable pub get : Cslab T → ℕ → Exec (Option T)
  get c idx = get_impl c.storage idx

  -- After a value for the item, the freelist's head is advanced by the stored offset; the stores
  -- to the item, the frontier and the bitmap follow in this order.
  unfoldable pub insert : T → Cslab T → Exec (Cslab T × Fallible ℕ)
  insert v c =
      let idx = c.first_free in
      if leb c.size idx then value (c, err tt) else (do
        entry ← index c.table idx
        offset ← read_next_free entry
        word ← index c.bitmap (idx / bits)
        assert (flag word idx == 0)
        in_use ← add_usize c.in_use 1
        allocated ← add_usize c.allocated 1
        value (
          record {
            first_free = as_usize (pos (idx + 1) +ℤ offset);
            in_use = in_use;
            allocated = allocated;
            storage = record {
              size = c.size;
              frontier = if leb c.frontier idx then idx + 1 else c.frontier;
              table = set c.table idx (item v);
              bitmap = set c.bitmap (idx / bits) (with_flag word idx);
            };
          },
          ok idx,
        ))

  unfoldable pub vacant_key : Cslab T → Fallible ℕ
  vacant_key c = if leb c.size c.first_free then err tt else ok c.first_free

  unfoldable pub mark_removed : ℕ → Cslab T → Exec (Cslab T)
  mark_removed idx c = do
    word ← index c.bitmap (idx / bits)
    assert (flag word idx == 1)
    in_use ← sub_usize c.in_use 1
    value (record {
      first_free = c.first_free;
      in_use = in_use;
      allocated = c.allocated;
      storage = record {
        size = c.size;
        frontier = c.frontier;
        table = c.table;
        bitmap = set c.bitmap (idx / bits) (without_flag word idx);
      };
    })

  unfoldable pub finalize_remove : ℕ → Cslab T → Exec (Cslab T × T)
  finalize_remove idx c = do
    word ← index c.bitmap (idx / bits)
    assert (flag word idx == 0)
    entry ← index c.table idx
    v ← read_item entry
    allocated ← sub_usize c.allocated 1
    value (
      record {
        first_free = idx;
        in_use = c.in_use;
        allocated = allocated;
        storage = record {
          size = c.size;
          frontier = c.frontier;
          table = set c.table idx (next_free (sub_ℕ c.first_free (idx + 1)));
          bitmap = c.bitmap;
        };
      },
      v,
    )

  unfoldable pub vacant_entry : Cslab T → Fallible (VacantEntry T)
  vacant_entry c = if leb c.size c.first_free then err tt else ok (record { slab = c })

  unfoldable pub entry_key : VacantEntry T → ℕ
  entry_key e = e.slab.first_free

  abbrev unwrap : Cslab T × Fallible ℕ → Exec (Cslab T × ℕ)
  unwrap (c, ok idx) = value (c, idx)
  unwrap (c, err e) = panic

  unfoldable pub entry_insert : T → VacantEntry T → Exec (Cslab T × ℕ)
  entry_insert v e = do done ← insert v e.slab; unwrap done
