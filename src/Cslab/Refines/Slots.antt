-- ===== src/Cslab/Refines/Slots.antt =====
-- One slot of the model, its entry and its flag change together; all others stay.
use zpr_utils.Base.{
  ℕ, ◌<◌, ◌≤◌, ◌/◌, Option-cases, lt_of_get_elem?, get_elem?-of_lt, ◌≡◌, ◌≢◌, ◌⊎◌, inl, inr, sym,
  ap, ◌∙◌, subst, none, some, List, ◌==◌, length, get_elem?, set, get_elem?-set_ne,
  get_elem?-set_self, arith, if◌then◌else◌,
}
use zpr_utils.Cslab.Storage.{Entry, bits}
use zpr_utils.Cslab.Slab.{Cslab}
use zpr_utils.Cslab.Bitmap.{bit_at, dec_eq, word_in_range}
use zpr_utils.Cslab.Model.{Slot, vacant, present, pending, Model, lookup, shown}
use zpr_utils.Cslab.Represents.{Holds, Represents}

pub lt_or_ge : (n j : ℕ) → (j < n) ⊎ (n ≤ j)
lt_or_ge n j = grind arith

module _ {ℓ} {T : Type ℓ} (slots : List (Slot T)) (table table' : List (Entry T))
    (bitmap bitmap' : List ℕ) (i : ℕ) (s' : Slot T)
    (here : Holds s' (get_elem? table' i) (bit_at bitmap' i))
    (entries : (j : ℕ) → i ≢ j → get_elem? table' j ≡ get_elem? table j)
    (flags : (j : ℕ) → i ≢ j → bit_at bitmap' j ≡ bit_at bitmap j) (low : i < length slots)
    (holds : (j : ℕ) (s : Slot T)
      → get_elem? slots j ≡ some s
      → Holds s (get_elem? table j) (bit_at bitmap j)) where
  pub Holds-update :
      (j : ℕ) (s : Slot T)
      → get_elem? (set slots i s') j ≡ some s
      → Holds s (get_elem? table' j) (bit_at bitmap' j)
  Holds-update j s e = elim (dec_eq i j) [
    | inl (same, _) ↦
        let found : some s' ≡ some s =
          sym (get_elem?-set_self slots i s' low) ∙ ap (get_elem? (set slots i s')) same ∙ e in
        let slot : s' ≡ s = cc in
        subst (λ t. Holds t (get_elem? table' j) (bit_at bitmap' j)) slot
          (subst (λ t. Holds s' (get_elem? table' t) (bit_at bitmap' t)) same here)
    | inr (other, _) ↦
        let old = holds j s (sym (get_elem?-set_ne slots i j s' other) ∙ e) in
        rw (entries j other, flags j other) old
  ]

-- A bitmap that differs at one flag.
module _ (old new : List ℕ) (i v : ℕ)
    (stored : (j : ℕ) → bit_at new j ≡ (if i == j then v else bit_at old j)) where
  pub flag_here : bit_at new i ≡ v
  flag_here = ground (arith, stored i)

  pub flag_there : (j : ℕ) → i ≢ j → bit_at new j ≡ bit_at old j
  flag_there j ne = ground (arith, stored j)

-- In a slab that represents a model.
module _ {ℓ} {T : Type ℓ} (c : Cslab T) (m : Model T) (rep : Represents c m) (i : ℕ) where
  -- An index in range has its word in the bitmap.
  pub word_of :
      {s : Slot T}
      → get_elem? m.slots i ≡ some s
      → (word : ℕ) × (get_elem? c.bitmap (i / bits) ≡ some word)
  word_of slot = get_elem?-of_lt c.bitmap (i / bits) (
      rw rep.words_len
        (word_in_range c.size i (omega (arith, lt_of_get_elem? m.slots i slot, rep.slots_len))))

  -- Where the model shows no item, the flag is clear.
  pub absent_clear : lookup m i ≡ none → bit_at c.bitmap i ≡ 0
  absent_clear absent = elim (Option-cases (get_elem? m.slots i)) [
    | inl e ↦ rep.beyond i (omega (arith, length_of_missing m.slots i e, rep.slots_len))
    | inr (s, e) ↦ clear s (rep.holds i s e) (ap shown (sym e) ∙ absent)
  ]
    where
      clear :
          (s : Slot T)
          → Holds s (get_elem? c.table i) (bit_at c.bitmap i)
          → shown (some s) ≡ none
          → bit_at c.bitmap i ≡ 0
      clear vacant h e = h.1
      clear (present v) h e = cc
      clear (pending v) h e = h.1

      length_of_missing : (xs : List (Slot T)) (j : ℕ) → get_elem? xs j ≡ none → length xs ≤ j
      length_of_missing xs j e = elim (lt_or_ge (length xs) j) [
        | inl low ↦ let (a, found) = get_elem?-of_lt xs j low in cc
        | inr high ↦ high
      ]
