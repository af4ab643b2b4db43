-- ===== src/Cslab/Refines/Chains.antt =====
-- The freelist under stores to the table, and in a new slab.
use zpr_utils.Base.{
  ℕ, zero, suc, ◌+◌, ◌^◌, ◌≤◌, ◌<◌, ◌≡◌, ◌≢◌, refl, sym, ap, ◌∙◌, some, List, [], ◌∷◌, length,
  get_elem?, set, replicate, get_elem?-set_ne, get_elem?-replicate, All, arith,
}
use zpr_utils.Base.Int.{pos, ◌+ℤ◌, as_usize, as_usize-pos}
use zpr_utils.Cslab.Storage.{Entry, next_free}
use zpr_utils.Cslab.Model.{Slot, vacant, range_from}
use zpr_utils.Cslab.Represents.{Distinct, Chain, offset_of}

abbrev pub Apart : ℕ → List ℕ → Type 0
Apart i is = All (λ j. i ≢ j) is

module _ {ℓ} {T : Type ℓ} where
  pub Chain-le :
      (table : List (Entry T)) (size start : ℕ) (free : List ℕ)
      → Chain table size start free
      → start ≤ size
  Chain-le table size start [] chain = omega arith
  Chain-le table size start (j ∷ free) (z, at, low, next, rest) = omega arith

  -- A store to an entry off the freelist leaves it as it was.
  pub Chain-set :
      (table : List (Entry T)) (size start i : ℕ) (e : Entry T) (free : List ℕ)
      → Apart i free
      → Chain table size start free
      → Chain (set table i e) size start free
  Chain-set table size start i e [] apart chain = chain
  Chain-set table size start i e (j ∷ free) apart (z, at, low, next, chain) = (
    z,
    at,
    low,
    ap offset_of (get_elem?-set_ne table i j e apart.0) ∙ next,
    Chain-set table size (as_usize (pos (j + 1) +ℤ z)) i e free apart.1 chain,
  )

  -- Slots that are not vacant are off the freelist.
  pub Apart-of_vacant :
      (slots : List (Slot T)) (i : ℕ) (s : Slot T) (free : List ℕ)
      → get_elem? slots i ≡ some s
      → s ≢ vacant
      → All (λ j. get_elem? slots j ≡ some vacant) free
      → Apart i free
  Apart-of_vacant slots i s [] e ne all = tt
  Apart-of_vacant slots i s (j ∷ free) e ne all = (
    λ same. ne (taken (sym e ∙ ap (get_elem? slots) same ∙ all.0)),
    Apart-of_vacant slots i s free e ne all.1,
  )
    where
      taken : some s ≡ some vacant → s ≡ vacant
      taken h = cc

  pub vacant-set :
      (slots : List (Slot T)) (i : ℕ) (s : Slot T) (free : List ℕ)
      → Apart i free
      → All (λ j. get_elem? slots j ≡ some vacant) free
      → All (λ j. get_elem? (set slots i s) j ≡ some vacant) free
  vacant-set slots i s [] apart all = tt
  vacant-set slots i s (j ∷ free) apart all =
      (get_elem?-set_ne slots i j s apart.0 ∙ all.0, vacant-set slots i s free apart.1 all.1)

module _ {ℓ} (T : Type ℓ) where
  -- In a zeroed table the freelist runs through all slots in order.
  pub Chain-initial :
      (size i n : ℕ)
      → size < 2 ^ 63
      → i + n ≡ size
      → Chain (replicate {A = Entry T} size (next_free (pos 0))) size i (range_from i n)
  Chain-initial size i zero h e = omega arith
  Chain-initial size i (suc n) h e = (
    pos 0,
    refl,
    omega arith,
    ap offset_of (get_elem?-replicate {A = Entry T} size (next_free (pos 0)) i (omega arith)),
    rw (as_usize-pos (i + 1) (omega arith)) (Chain-initial size (i + 1) n h (omega arith)),
  )

  pub vacant-initial :
      (size i n : ℕ)
      → i + n ≡ size
      → All (λ j. get_elem? (replicate {A = Slot T} size vacant) j ≡ some vacant) (range_from i n)
  vacant-initial size i zero e = tt
  vacant-initial size i (suc n) e = (
    get_elem?-replicate {A = Slot T} size vacant i (omega arith),
    vacant-initial size (i + 1) n (omega arith),
  )

Apart-range_from : (j i n : ℕ) → j < i → Apart j (range_from i n)
Apart-range_from j i zero h = tt
Apart-range_from j i (suc n) h = (omega arith, Apart-range_from j (i + 1) n (omega arith))

pub Distinct-range_from : (i n : ℕ) → Distinct (range_from i n)
Distinct-range_from i zero = tt
Distinct-range_from i (suc n) =
    (Apart-range_from i (i + 1) n (omega arith), Distinct-range_from (i + 1) n)

pub length-range_from : (i n : ℕ) → length (range_from i n) ≡ n
length-range_from i zero = refl
length-range_from i (suc n) = ap suc (length-range_from (i + 1) n)
