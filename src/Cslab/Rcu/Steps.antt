-- ===== src/Cslab/Rcu/Steps.antt =====
-- The runs of an RCU slab with its readers: what the writer, a pass of `iter_mut` and its entries,
-- and the readers may do next, in any order that the borrows of the slab allow.
use zpr_utils.Base.{
  ℕ, suc, ◌+◌, ◌≤◌, ◌≡◌, Option, none, some, List, [], ◌∷◌, ◌++◌, ◌==◌, if◌then◌else◌, get_elem?,
  set,
}
use zpr_utils.Base.Exec.{Exec, value}
use zpr_utils.Cslab.Slab.{Fallible}
use zpr_utils.Cslab.Rcu.{
  RcuCslab, RcuCslabReader, insert, mark_removed, reader, clone_reader, drop_reader,
  schedule_finalization,
}
use zpr_utils.Cslab.Rcu.Entries.{
  RcuIterMut, RcuEntry, iter_mut, next_entry, next_back_entry, drop_iter_mut, drop_entry,
  entry_remove,
}

-- Who has borrowed the slab: nobody, a pass, or only the entries that a pass has left.
pub data Borrow : Type 0 where
  free : Borrow
  by_iter : RcuIterMut → Borrow
  by_entries : Borrow

-- The slab, how many readers of each generation there are, entries among them, and the entries.
pub record World {ℓ} (T : Type ℓ) : Type ℓ where
  pub slab : RcuCslab T
  pub readers : List ℕ
  pub borrow : Borrow
  pub entries : List (RcuEntry T)

abbrev pub reader_of : ℕ → RcuCslabReader
reader_of n = record { reader_gen = n }

-- The two ends that a pass takes entries from.
pub data End : Type 0 where
  at_front : End
  at_back : End

module _ {ℓ} {T : Type ℓ} where
  abbrev pub take_entry_at :
      End → RcuIterMut → RcuCslab T → Exec (RcuIterMut × RcuCslab T × Option (RcuEntry T))
  take_entry_at at_front it s = next_entry it s
  take_entry_at at_back it s = next_back_entry it s

  -- How many of the entries are of generation `n`.
  abbrev pub entries_of : ℕ → List (RcuEntry T) → ℕ
  entries_of n [] = 0
  entries_of n (x ∷ xs) = (if x.entry_gen == n then 1 else 0) + entries_of n xs

  -- What a step of the writer or of a reader leaves alone.
  pub record Lends (w w' : World T) : Type ℓ where
    pub borrow_same : w'.borrow ≡ w.borrow
    pub entries_same : w'.entries ≡ w.entries

pub data Step {ℓ} {T : Type ℓ} (w w' : World T) : Type ℓ where
  inserts :
      (v : T) (r : Fallible ℕ)
      → w.borrow ≡ free
      → insert v w.slab ≡ value (w'.slab, r)
      → w'.readers ≡ w.readers
      → Lends w w'
      → Step w w'
  marks :
      (i : ℕ)
      → w.borrow ≡ free
      → mark_removed i w.slab ≡ value w'.slab
      → w'.readers ≡ w.readers
      → Lends w w'
      → Step w w'
  reads :
      (n r : ℕ)
      → w.borrow ≡ free
      → reader w.slab ≡ value (w'.slab, reader_of n)
      → get_elem? w.readers n ≡ some r
      → w'.readers ≡ set w.readers n (suc r)
      → Lends w w'
      → Step w w'
  schedules :
      (n : ℕ)
      → w.borrow ≡ free
      → schedule_finalization w.slab ≡ value (w'.slab, reader_of n)
      → w'.readers ≡ w.readers ++ 1 ∷ []
      → Lends w w'
      → Step w w'
  -- A reader is cloned or dropped at any time; it is none of the entries.
  clones :
      (n r : ℕ)
      → get_elem? w.readers n ≡ some (suc r)
      → entries_of n w.entries ≤ r
      → clone_reader (reader_of n) w.slab ≡ value (w'.slab, reader_of n)
      → w'.readers ≡ set w.readers n (suc (suc r))
      → Lends w w'
      → Step w w'
  drops :
      (n r : ℕ)
      → get_elem? w.readers n ≡ some (suc r)
      → entries_of n w.entries ≤ r
      → drop_reader (reader_of n) w.slab ≡ value w'.slab
      → w'.readers ≡ set w.readers n r
      → Lends w w'
      → Step w w'
  -- A pass begins, finds an entry or none, and is dropped; the slab is free when no entry is left.
  iterates :
      (it : RcuIterMut)
      → w.borrow ≡ free
      → iter_mut w.slab ≡ value it
      → w' ≡ record w { borrow = by_iter it }
      → Step w w'
  finds :
      (end : End) (it it' : RcuIterMut) (s' : RcuCslab T) (x : RcuEntry T) (r : ℕ)
      → w.borrow ≡ by_iter it
      → take_entry_at end it w.slab ≡ value (it', s', some x)
      → get_elem? w.readers x.entry_gen ≡ some r
      → w' ≡ record {
        slab = s';
        readers = set w.readers x.entry_gen (suc r);
        borrow = by_iter it';
        entries = x ∷ w.entries;
      }
      → Step w w'
  finds_none :
      (end : End) (it it' : RcuIterMut) (s' : RcuCslab T)
      → w.borrow ≡ by_iter it
      → take_entry_at end it w.slab ≡ value (it', s', none)
      → w' ≡ record w { slab = s'; borrow = by_iter it' }
      → Step w w'
  finishes :
      (it : RcuIterMut) (s' : RcuCslab T)
      → w.borrow ≡ by_iter it
      → drop_iter_mut w.slab ≡ value s'
      → w' ≡ record w { slab = s'; readers = w.readers ++ 0 ∷ []; borrow = by_entries }
      → Step w w'
  returns : w.borrow ≡ by_entries → w.entries ≡ [] → w' ≡ record w { borrow = free } → Step w w'
  -- An entry is removed or dropped, whether the pass goes on or not.
  removes :
      (before behind : List (RcuEntry T)) (x : RcuEntry T) (s' : RcuCslab T) (r : ℕ)
      → w.entries ≡ before ++ x ∷ behind
      → entry_remove x w.slab ≡ value s'
      → get_elem? w.readers x.entry_gen ≡ some (suc r)
      → w'
        ≡ record w { slab = s'; readers = set w.readers x.entry_gen r; entries = before ++ behind }
      → Step w w'
  forgets :
      (before behind : List (RcuEntry T)) (x : RcuEntry T) (s' : RcuCslab T) (r : ℕ)
      → w.entries ≡ before ++ x ∷ behind
      → drop_entry x w.slab ≡ value s'
      → get_elem? w.readers x.entry_gen ≡ some (suc r)
      → w'
        ≡ record w { slab = s'; readers = set w.readers x.entry_gen r; entries = before ++ behind }
      → Step w w'

-- Where steps lead to from `w`.
pub data Reach {ℓ} {T : Type ℓ} (w : World T) : World T → Type ℓ where
  start : Reach w w
  after : {w' w'' : World T} → Reach w w' → Step w' w'' → Reach w w''

-- Where steps lead to from `w` while generation `n` has a reader.
pub data Holding {ℓ} {T : Type ℓ} (n : ℕ) (w : World T) : World T → Type ℓ where
  held : (r : ℕ) → get_elem? w.readers n ≡ some (suc r) → Holding n w w
  onward :
      {w' w'' : World T} (r : ℕ)
      → Holding n w w'
      → Step w' w''
      → get_elem? w''.readers n ≡ some (suc r)
      → Holding n w w''

-- A new slab, without readers.
abbrev pub new_world {ℓ} : {T : Type ℓ} → RcuCslab T → World T
new_world s = record { slab = s; readers = 0 ∷ []; borrow = free; entries = [] }
