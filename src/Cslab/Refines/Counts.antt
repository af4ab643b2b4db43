-- ===== src/Cslab/Refines/Counts.antt =====
-- Counting slots.
use zpr_utils.Base.{
  ℕ, zero, suc, ◌+◌, ◌≤◌, ◌≡◌, refl, ap, some, List, [], ◌∷◌, length, get_elem?, set, replicate,
  arith,
}
use zpr_utils.Cslab.Model.{Slot, vacant, present, pending, is_present, is_taken, count}

module _ {ℓ} {T : Type ℓ} where
  pub count-set :
      (p : Slot T → ℕ) (slots : List (Slot T)) (i : ℕ) (a b : Slot T)
      → get_elem? slots i ≡ some a
      → count p (set slots i b) + p a ≡ count p slots + p b
  count-set p [] i a b e = cc
  count-set p (s ∷ slots) zero a b e = let same : s ≡ a = cc in omega (arith, ap p same)
  count-set p (s ∷ slots) (suc i) a b e = omega (arith, count-set p slots i a b e)

  pub count-le :
      (p : Slot T → ℕ) (slots : List (Slot T))
      → ((s : Slot T) → p s ≤ 1)
      → count p slots ≤ length slots
  count-le p [] h = omega arith
  count-le p (s ∷ slots) h = omega (arith, h s, count-le p slots h)

  pub is_present-le : (s : Slot T) → is_present s ≤ 1
  is_present-le vacant = omega arith
  is_present-le (present v) = omega arith
  is_present-le (pending v) = omega arith

  pub is_taken-le : (s : Slot T) → is_taken s ≤ 1
  is_taken-le vacant = omega arith
  is_taken-le (present v) = omega arith
  is_taken-le (pending v) = omega arith

  pub count-replicate : (p : Slot T → ℕ) (n : ℕ) → p vacant ≡ 0 → count p (replicate n vacant) ≡ 0
  count-replicate p zero e = refl
  count-replicate p (suc n) e = omega (arith, count-replicate p n e)
