-- ===== src/Cslab/Model.antt =====
-- What a slab is, without its representation: a state for each slot, and the order in which free
-- slots are handed out.
use zpr_utils.Base.{
  ℕ, zero, suc, ◌+◌, Option, none, some, List, [], ◌∷◌, get_elem?, set, replicate, ok, err,
}
use zpr_utils.Cslab.Slab.{Fallible}

-- A pending slot has been marked for removal, and its item is not dropped yet.
pub data Slot {ℓ} (T : Type ℓ) : Type ℓ where
  vacant : Slot T
  present : T → Slot T
  pending : T → Slot T

pub record Model {ℓ} (T : Type ℓ) : Type ℓ where
  pub slots : List (Slot T)
  pub free : List ℕ

abbrev pub range_from : ℕ → ℕ → List ℕ
range_from i zero = []
range_from i (suc n) = i ∷ range_from (i + 1) n

module _ {ℓ} {T : Type ℓ} where
  abbrev pub initial : ℕ → Model T
  initial n = record { slots = replicate n vacant; free = range_from 0 n }

  -- The item goes to the first free slot; without one nothing changes.
  abbrev pub put_first : T → Model T → List ℕ → Model T × Fallible ℕ
  put_first v m [] = (m, err tt)
  put_first v m (i ∷ rest) = (record { slots = set m.slots i (present v); free = rest }, ok i)

  abbrev pub put : T → Model T → Model T × Fallible ℕ
  put v m = put_first v m m.free

  -- The item of a present slot.
  abbrev pub shown : Option (Slot T) → Option T
  shown none = none
  shown (some vacant) = none
  shown (some (present v)) = some v
  shown (some (pending v)) = none

  abbrev pub lookup : Model T → ℕ → Option T
  lookup m idx = shown (get_elem? m.slots idx)

  abbrev pub hide : ℕ → T → Model T → Model T
  hide idx v m = record m { slots = set m.slots idx (pending v) }

  abbrev pub drop_item : ℕ → Model T → Model T
  drop_item idx m = record { slots = set m.slots idx vacant; free = idx ∷ m.free }

  abbrev pub is_present : Slot T → ℕ
  is_present vacant = 0
  is_present (present v) = 1
  is_present (pending v) = 0

  abbrev pub is_taken : Slot T → ℕ
  is_taken vacant = 0
  is_taken (present v) = 1
  is_taken (pending v) = 1

  abbrev pub count : (Slot T → ℕ) → List (Slot T) → ℕ
  count p [] = 0
  count p (s ∷ slots) = p s + count p slots
