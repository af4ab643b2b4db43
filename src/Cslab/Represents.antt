-- ===== src/Cslab/Represents.antt =====
-- When a slab in memory represents a model: the refinement relation, and its parts.
use zpr_utils.Base.{
  ℕ, ◌+◌, ◌^◌, ◌≤◌, ◌<◌, ◌≡◌, ◌≢◌, ap, Option, none, some, List, [], ◌∷◌, length, get_elem?, All,
}
use zpr_utils.Base.Int.{ℤ, pos, ◌+ℤ◌, as_usize}
use zpr_utils.Cslab.Storage.{Entry, next_free, item, bitmap_len}
use zpr_utils.Cslab.Slab.{Cslab}
use zpr_utils.Cslab.Bitmap.{bit_at}
use zpr_utils.Cslab.Model.{Slot, vacant, present, pending, Model, is_present, is_taken, count}

abbrev pub Distinct : List ℕ → Type 0
Distinct [] = Unit
Distinct (i ∷ is) = All (λ j. i ≢ j) is × Distinct is

module _ {ℓ} {T : Type ℓ} where
  abbrev pub offset_of : Option (Entry T) → Option ℤ
  offset_of none = none
  offset_of (some (next_free z)) = some z
  offset_of (some (item v)) = none

  pub offset_of-eq-some :
      (o : Option (Entry T)) {z : ℤ} → offset_of o ≡ some z → o ≡ some (next_free z)
  offset_of-eq-some none e = cc
  offset_of-eq-some (some (next_free y)) {z} e =
      let same : y ≡ z = cc in ap (λ (t : ℤ). some (next_free t)) same
  offset_of-eq-some (some (item v)) e = cc

  -- Following the offsets from `start` leads through `free` and then out of the table.
  abbrev pub Chain : List (Entry T) → ℕ → ℕ → List ℕ → Type 0
  Chain table size start [] = start ≡ size
  Chain table size start (i ∷ free) =
      (z : ℤ) × (start ≡ i)
      × (i < size)
      × (offset_of (get_elem? table i) ≡ some z)
      × Chain table size (as_usize (pos (i + 1) +ℤ z)) free

  -- What memory holds for a slot: its entry, and its flag.
  abbrev pub Holds : Slot T → Option (Entry T) → ℕ → Type ℓ
  Holds vacant e b = ((z : ℤ) × (e ≡ some (next_free z))) × (b ≡ 0)
  Holds (present v) e b = (e ≡ some (item v)) × (b ≡ 1)
  Holds (pending v) e b = (e ≡ some (item v)) × (b ≡ 0)

  pub record Represents (c : Cslab T) (m : Model T) : Type ℓ where
    pub table_len : length c.table ≡ c.size
    pub words_len : length c.bitmap ≡ bitmap_len c.size
    pub word_width : All (λ w. w < 2 ^ 64) c.bitmap
    pub slots_len : length m.slots ≡ c.size
    pub addressable : c.size < 2 ^ 63
    pub holds :
        (i : ℕ) (s : Slot T)
        → get_elem? m.slots i ≡ some s
        → Holds s (get_elem? c.table i) (bit_at c.bitmap i)
    pub beyond : (i : ℕ) → c.size ≤ i → bit_at c.bitmap i ≡ 0
    pub chain : Chain c.table c.size c.first_free m.free
    pub distinct : Distinct m.free
    pub free_vacant : All (λ i. get_elem? m.slots i ≡ some vacant) m.free
    pub in_use_count : c.in_use ≡ count is_present m.slots
    pub allocated_count : c.allocated ≡ count is_taken m.slots
    pub free_count : length m.free + c.allocated ≡ c.size
    pub frontier_le : c.frontier ≤ c.size
    pub frontier_above : (i : ℕ) (v : T) → get_elem? m.slots i ≡ some (present v) → i < c.frontier
