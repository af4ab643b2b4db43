-- ===== src/Cslab/Rcu/Entries.antt =====
-- cslab/src/lib.rs: what else is done through an RCU slab: `RcuCslabReader`'s lookups, the
-- counters, `VacantRcuEntry`, and `RcuIterMut` with its `RcuEntry`s, up to `clear`. The iterator
-- reads the slab as it is at each call; an entry's reference to its generation counts as a reader.
pub mod Taken
pub mod Clear
use zpr_utils.Base.{
  ℕ, zero, suc, ◌+◌, ◌-◌, Bool, Option, none, some, List, [], set, Result, ok, err,
}
use zpr_utils.Base.Exec.{Exec, value, panic, undefined, ◌>>=◌, index, sub_usize}
use zpr_utils.Cslab.Slab
use zpr_utils.Cslab.Slab.{Cslab, Fallible}
use zpr_utils.Cslab.Reader
use zpr_utils.Cslab.Iter.{Iter, iter_new, next, next_back}
use zpr_utils.Cslab.Rcu.{
  RcuCslab, RcuCslabReader, add_ref, release_at, gen_mark_removed, advance_generation, reader,
}

-- Where a pass has come to from both ends; `cur_gen` is the slab's.
pub record RcuIterMut : Type 0 where
  pub head : ℕ
  pub tail : ℕ
  pub remaining : ℕ

-- `entry_gen` is the number of its generation.
pub record RcuEntry {ℓ} (T : Type ℓ) : Type ℓ where
  pub idx : ℕ
  pub item : T
  pub entry_gen : ℕ

unfoldable pub entries_size_hint : RcuIterMut → ℕ × Option ℕ
entries_size_hint it = (it.remaining, some it.remaining)

module _ {ℓ} {T : Type ℓ} where
  unfoldable pub reader_get : RcuCslabReader → RcuCslab T → ℕ → Exec (Option T)
  reader_get r s idx = Reader.get s.writer.storage idx

  unfoldable pub reader_contains_key : RcuCslabReader → RcuCslab T → ℕ → Exec Bool
  reader_contains_key r s idx = Reader.contains_key s.writer.storage idx

  unfoldable pub reader_get_unchecked : RcuCslabReader → RcuCslab T → ℕ → Exec T
  reader_get_unchecked r s idx = Reader.get_unchecked s.writer.storage idx

  unfoldable pub reader_iter : RcuCslabReader → RcuCslab T → Exec (Iter T)
  reader_iter r s = Reader.iter s.writer.storage

  unfoldable pub len : RcuCslab T → ℕ
  len s = Slab.len s.writer

  unfoldable pub allocated : RcuCslab T → ℕ
  allocated s = Slab.allocated_len s.writer

  -- `VacantRcuEntry` is the slab itself, locked.
  unfoldable pub vacant_rcu_entry : RcuCslab T → Fallible (RcuCslab T)
  vacant_rcu_entry s = elim (Slab.vacant_key s.writer) [ err e ↦ err tt | ok idx ↦ ok s ]

  unfoldable pub rcu_entry_key : RcuCslab T → Exec ℕ
  rcu_entry_key s = elim (Slab.vacant_key s.writer) [ err e ↦ panic | ok idx ↦ value idx ]

  unfoldable pub rcu_entry_insert : T → RcuCslab T → Exec (RcuCslab T × ℕ)
  rcu_entry_insert v s = do
    done ← Slab.insert v s.writer
    elim done.1 [ err e ↦ panic | ok idx ↦ value (record s { writer = done.0 }, idx) ]

  unfoldable pub iter_mut : RcuCslab T → Exec RcuIterMut
  unfolding iter_new
  iter_mut s = do
    it ← iter_new s.writer.storage
    value (record { head = it.head; tail = it.tail; remaining = s.writer.in_use })

  abbrev pub at : RcuIterMut → RcuCslab T → Iter T
  at it s = record { storage = s.writer.storage; head = it.head; tail = it.tail }

  -- What `next` and `next_back` do with the item that `Iter` found, if any.
  unfoldable pub yielded :
      ℕ
      → Iter T × Option (ℕ × T)
      → RcuCslab T
      → Exec (RcuIterMut × RcuCslab T × Option (RcuEntry T))
  yielded remaining (it, none) s =
      value (record { head = it.head; tail = it.tail; remaining = remaining }, s, none)
  yielded remaining (it, some (idx, v)) s = do
    left ← sub_usize remaining 1
    g ← index s.gens s.cur_gen
    value (
      record { head = it.head; tail = it.tail; remaining = left },
      record s { gens = set s.gens s.cur_gen (add_ref g) },
      some (record { idx = idx; item = v; entry_gen = s.cur_gen }),
    )

  unfoldable pub next_entry :
      RcuIterMut → RcuCslab T → Exec (RcuIterMut × RcuCslab T × Option (RcuEntry T))
  unfolding yielded next
  next_entry it s = do r ← next (at it s); yielded it.remaining r s

  unfoldable pub next_back_entry :
      RcuIterMut → RcuCslab T → Exec (RcuIterMut × RcuCslab T × Option (RcuEntry T))
  unfolding yielded next_back
  next_back_entry it s = do r ← next_back (at it s); yielded it.remaining r s

  unfoldable pub drop_iter_mut : RcuCslab T → Exec (RcuCslab T)
  unfolding advance_generation
  drop_iter_mut s = advance_generation s

  unfoldable pub drop_entry : RcuEntry T → RcuCslab T → Exec (RcuCslab T)
  drop_entry e s = do
    done ← release_at e.entry_gen s.gens s.writer
    value (record s { gens = done.0; writer = done.1 })

  unfoldable pub entry_key : RcuEntry T → ℕ
  entry_key e = e.idx

  unfoldable pub entry_deref : RcuEntry T → T
  entry_deref e = e.item

  -- `remove` consumes the entry.
  unfoldable pub entry_remove : RcuEntry T → RcuCslab T → Exec (RcuCslab T)
  unfolding gen_mark_removed drop_entry
  entry_remove e s = do s' ← gen_mark_removed e.entry_gen e.idx s; drop_entry e s'

  -- The loop of `clear`, on fuel; to run out of it counts as undefined.
  unfoldable pub clear_loop : ℕ → RcuIterMut → RcuCslab T → Exec (RcuCslab T)
  unfolding next_entry entry_remove
  clear_loop zero it s = undefined
  clear_loop (suc fuel) it s = do
    found ← next_entry it s
    elim found.2 [
      | none ↦ value found.1
      | some e ↦ do s' ← entry_remove e found.1; clear_loop fuel found.0 s'
    ]

  unfoldable pub clear : RcuCslab T → Exec (RcuCslab T × RcuCslabReader)
  unfolding iter_mut clear_loop drop_iter_mut reader
  clear s = do
    it ← iter_mut s
    s' ← clear_loop (s.writer.size + 1) it s
    s'' ← drop_iter_mut s'
    reader s''
