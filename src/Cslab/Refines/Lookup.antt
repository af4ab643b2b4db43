-- ===== src/Cslab/Refines/Lookup.antt =====
-- Lookups show exactly the model's present items, and the counters count its slots.
use zpr_utils.Base.{
  ℕ, ◌/◌, ◌<◌, ◌≡◌, ◌⊎◌, inl, inr, ap, ◌∙◌, Bool, true, false, Option, Option-cases, none, some,
  get_elem?, get_elem?-of_lt, lt_of_get_elem?, arith,
}
use zpr_utils.Base.Exec.{value}
use zpr_utils.Cslab.Storage.{bits, Entry, contains_key_impl, get_impl, get_unchecked_impl}
use zpr_utils.Cslab.Slab.{Cslab}
use zpr_utils.Cslab.Bitmap.{bit_at, flag-bit_at, word_in_range}
use zpr_utils.Cslab.Model.{Slot, vacant, present, pending, Model, lookup, shown}
use zpr_utils.Cslab.Represents.{Represents}
use zpr_utils.Cslab.Refines.Slots.{lt_or_ge, word_of, absent_clear}

abbrev pub found {ℓ} : {T : Type ℓ} → Option T → Bool
found none = false
found (some v) = true

module _ {ℓ} {T : Type ℓ} (c : Cslab T) (m : Model T) (rep : Represents c m) (i : ℕ) where
  read_entry :
      (v : T) → get_elem? c.table i ≡ some (Entry.item v) → get_unchecked_impl c.storage i ≡ value v
  unfolding get_unchecked_impl
  read_entry v e = ground arith

  -- On a slab that represents a model, an item that is present or pending removal can be read
  -- unchecked.
  pub get_unchecked_impl-item :
      (v : T)
      → (get_elem? m.slots i ≡ some (present v)) ⊎ (get_elem? m.slots i ≡ some (pending v))
      → get_unchecked_impl c.storage i ≡ value v
  get_unchecked_impl-item v (inl e) = read_entry v (rep.holds i (present v) e).0
  get_unchecked_impl-item v (inr e) = read_entry v (rep.holds i (pending v) e).0

  pub shown_inv : (o : Option (Slot T)) (v : T) → shown o ≡ some v → o ≡ some (present v)
  shown_inv none v e = cc
  shown_inv (some vacant) v e = cc
  shown_inv (some (present u)) v e = let same : u ≡ v = cc in ap (λ t. some (present t)) same
  shown_inv (some (pending u)) v e = cc

  -- On a slab that represents a model, `contains_key` is whether the model shows an item, at every
  -- index.
  pub contains_key-lookup : contains_key_impl c.storage i ≡ value (found (lookup m i))
  unfolding contains_key_impl
  contains_key-lookup = elim (Option-cases (lookup m i)) [
    | inl absent ↦ let clear = absent_clear c m rep i absent in rw absent (absent_key clear)
    | inr (v, e) ↦
        let slot = shown_inv (get_elem? m.slots i) v e in
        let (word, read) = word_of c m rep i slot in
        let set_flag = flag-bit_at c.bitmap i word read ∙ (rep.holds i (present v) slot).1 in
        let low : i < c.size = omega (arith, lt_of_get_elem? m.slots i slot, rep.slots_len) in
        rw e (ground arith)
  ]
    where
      absent_key : bit_at c.bitmap i ≡ 0 → contains_key_impl c.storage i ≡ value false
      absent_key clear = elim (lt_or_ge c.size i) [
        | inl low ↦
            let (word, read) =
              get_elem?-of_lt c.bitmap (i / bits) (rw rep.words_len (word_in_range c.size i low)) in
            ground (arith, flag-bit_at c.bitmap i word read)
        | inr high ↦ ground arith
      ]

  -- On a slab that represents a model, `get` returns the item that the model shows, at every
  -- index, and nothing where it shows none.
  pub get_impl-lookup : get_impl c.storage i ≡ value (lookup m i)
  unfolding get_impl
  get_impl-lookup = elim (Option-cases (lookup m i)) [
    | inl absent ↦ rw (contains_key-lookup, absent, get_impl)
    | inr (v, e) ↦
        let slot = shown_inv (get_elem? m.slots i) v e in
        rw (contains_key-lookup, e, get_unchecked_impl-item v (inl slot))
  ]
