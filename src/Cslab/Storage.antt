-- ===== src/Cslab/Storage.antt =====
-- cslab/src/lib.rs: the table and bitmap of a slab, and the lookups that readers and the writer
-- share.
use zpr_utils.Base.{
  ℕ, ◌+◌, ◌-◌, ◌/◌, ◌%◌, ◌^◌, bit_and, Bool, false, not, Option, none, some, List, leb, ◌==◌,
  if◌then◌else◌, replicate,
}
use zpr_utils.Base.Int.{ℤ, pos}
use zpr_utils.Base.Exec.{Exec, value, panic, undefined, ◌>>=◌, ◌>>◌, assert, index}

-- `usize::BITS`.
abbrev pub bits : ℕ
bits = 64

-- The union `Entry`: which of its fields was written last. To read the other one is undefined.
pub data Entry {ℓ} (T : Type ℓ) : Type ℓ where
  next_free : ℤ → Entry T
  item : T → Entry T

pub record CslabStorage {ℓ} (T : Type ℓ) : Type ℓ where
  pub size : ℕ
  pub frontier : ℕ
  pub table : List (Entry T)
  pub bitmap : List ℕ

-- The length of the bitmap, in words.
abbrev pub bitmap_len : ℕ → ℕ
bitmap_len n = (n + bits - 1) / bits

-- `(word >> (idx % usize::BITS)) & 1`.
abbrev pub flag : ℕ → ℕ → ℕ
flag word idx = bit_and (word / 2 ^ (idx % bits)) 1

-- What `std::alloc` does for `n` entries and their bitmap: there is no layout of that size, or
-- `alloc_zeroed` returns null, or zeroed memory.
pub data Allocation : Type 0 where
  no_layout : Allocation
  no_memory : Allocation
  zeroed : Allocation

module _ {ℓ} {T : Type ℓ} where
  abbrev pub read_next_free : Entry T → Exec ℤ
  read_next_free (next_free z) = value z
  read_next_free (item v) = undefined

  abbrev pub read_item : Entry T → Exec T
  read_item (next_free z) = undefined
  read_item (item v) = value v

  -- What is made of the memory, which is not tested for null; a slab on null counts as undefined
  -- from the start, as its bitmap and table are not there.
  abbrev zeroed_storage : Allocation → ℕ → Exec (CslabStorage T)
  zeroed_storage no_layout size = panic
  zeroed_storage no_memory size = undefined
  zeroed_storage zeroed size = value (record {
    size = size;
    frontier = 0;
    table = replicate size (next_free (pos 0));
    bitmap = replicate (bitmap_len size) 0;
  })

  unfoldable pub storage_with_fixed_capacity : (ℕ → Allocation) → ℕ → Exec (CslabStorage T)
  storage_with_fixed_capacity allocates size = do
    assert (not (size == 0))
    zeroed_storage (allocates size) size

  unfoldable pub contains_key_impl : CslabStorage T → ℕ → Exec Bool
  contains_key_impl storage idx =
      if leb storage.size idx
      then value false
      else (do word ← index storage.bitmap (idx / bits); value (not (flag word idx == 0)))

  unfoldable pub get_unchecked_impl : CslabStorage T → ℕ → Exec T
  get_unchecked_impl storage idx = do entry ← index storage.table idx; read_item entry

  unfoldable pub get_impl : CslabStorage T → ℕ → Exec (Option T)
  get_impl storage idx = do
    present ← contains_key_impl storage idx
    if present then (do v ← get_unchecked_impl storage idx; value (some v)) else value none
