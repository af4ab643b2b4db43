-- ===== src/Cslab/Rcu/Sessions.antt =====
-- What holds of an RCU slab while a pass of `iter_mut` or its entries have borrowed it: every entry
-- is of a slot that is present, of a generation that it keeps, and of no slot that the pass still
-- has before it.
pub mod Keeping
pub mod Found
pub mod Finds
pub mod Removing
pub mod Marking
pub mod Turns
use zpr_utils.Base.{ℕ, ◌+◌, ◌≤◌, ◌<◌, ◌≡◌, ◌⊎◌, some, List, [], length, get_elem?, All}
use zpr_utils.Cslab.Model.{present, Model}
use zpr_utils.Cslab.Iter.Seen.{seen}
use zpr_utils.Cslab.Rcu.{RcuCslab}
use zpr_utils.Cslab.Rcu.Invariant.{Inv}
use zpr_utils.Cslab.Rcu.Entries.{RcuIterMut, RcuEntry}
use zpr_utils.Cslab.Rcu.Steps.{World, Borrow, free, by_iter, by_entries, entries_of}
use zpr_utils.Cslab.Rcu.Runs.{Protects}
use zpr_utils.Cslab.Rcu.Distinct.{Distinct}

-- The pass is past the entry's slot, from one of its ends.
abbrev pub Outside {ℓ} : {T : Type ℓ} → ℕ → ℕ → RcuEntry T → Type 0
Outside head tail x = (x.idx < head) ⊎ (tail ≤ x.idx)

module _ {ℓ} {T : Type ℓ} where
  abbrev pub Showing : Model T → RcuEntry T → Type ℓ
  Showing m x = get_elem? m.slots x.idx ≡ some (present x.item)

  -- A pass has a range before it, and counts what is shown there.
  pub record Pass (s : RcuCslab T) (m : Model T) (it : RcuIterMut) (xs : List (RcuEntry T))
      : Type ℓ where
    pub left : ℕ
    pub range : it.head + left ≡ it.tail
    pub inside : it.tail ≤ s.writer.size
    pub counts : it.remaining ≡ length (seen m left it.head)
    pub of_current : All (λ x. x.entry_gen ≡ s.cur_gen) xs
    pub outside : All (Outside it.head it.tail) xs

  -- Once the pass is over, the entries left are of the generation before the current one, which no
  -- reader has seen yet.
  pub record Left (s : RcuCslab T) (readers : List ℕ) (xs : List (RcuEntry T)) : Type ℓ where
    pub of_previous : All (λ x. x.entry_gen + 1 ≡ s.cur_gen) xs
    pub unread : get_elem? readers s.cur_gen ≡ some 0

  abbrev pub Lent : Borrow → RcuCslab T → Model T → List ℕ → List (RcuEntry T) → Type ℓ
  Lent free s m readers xs = xs ≡ []
  Lent (by_iter it) s m readers xs = Pass s m it xs
  Lent by_entries s m readers xs = Left s readers xs

  abbrev pub Counted : List ℕ → List (RcuEntry T) → Type 0
  Counted readers xs = (n r : ℕ) → get_elem? readers n ≡ some r → entries_of n xs ≤ r

  pub record Session (s : RcuCslab T) (m : Model T) (readers : List ℕ) (b : Borrow)
      (xs : List (RcuEntry T)) : Type ℓ where
    pub inv : Inv s m readers
    pub showing : All (Showing m) xs
    pub distinct : Distinct xs
    pub counted : Counted readers xs
    pub lent : Lent b s m readers xs

  -- What a step leaves, and that it protects what the readers left rely on.
  pub record Next (s : RcuCslab T) (m : Model T) (s' : RcuCslab T) (readers : List ℕ) (b : Borrow)
      (xs : List (RcuEntry T)) : Type ℓ where
    pub model : Model T
    pub session : Session s' model readers b xs
    pub protects : Protects s m s' model readers
    pub cur : s.cur_gen ≤ s'.cur_gen
