-- ===== src/Cslab/Rcu.antt =====
-- cslab/src/lib.rs: `RcuCslab`, whose removals are finalized once no reader of an older generation
-- is left. Generations are numbered in the order of their creation, and the `next_gen` of a
-- generation, once set, is the one after it. `strong` is the count of its `Arc`.
pub mod Finalizes
pub mod Removes
pub mod Protects
pub mod Owners
pub mod Counts
pub mod Releases
pub mod Advances
pub mod Guards
pub mod Invariant
pub mod Handles
pub mod Steps
pub mod Runs
pub mod Schedules
pub mod Outcomes
pub mod Kept
pub mod Readers
pub mod Passes
pub mod Ends
pub mod Examples
pub mod Entries
pub mod Distinct
pub mod Sessions
use zpr_utils.Base.{
  ℕ, zero, suc, ◌+◌, ◌-◌, Bool, true, false, not, Option, none, some, List, [], ◌∷◌, ◌++◌, leb,
  ◌==◌, if◌then◌else◌, length, set, Result, ok, err,
}
use zpr_utils.Base.Exec.{Exec, value, panic, undefined, ◌>>=◌, ◌>>◌, assert, index}
use zpr_utils.Cslab.Storage.{Allocation}
use zpr_utils.Cslab.Slab
use zpr_utils.Cslab.Slab.{Cslab, Fallible, finalize_remove}

-- `RcuCslabGen` with its `RcuCslabGenInner`.
pub record RcuCslabGen : Type 0 where
  pub strong : ℕ
  pub pending_removes : List ℕ
  pub next_gen : Bool

-- The writer and the generations are shared by the handles; `cur_gen` is a number of one.
pub record RcuCslab {ℓ} (T : Type ℓ) : Type ℓ where
  pub capacity : ℕ
  pub writer : Cslab T
  pub gens : List RcuCslabGen
  pub cur_gen : ℕ

-- `RcuCslabReader`: the number of its generation.
pub record RcuCslabReader : Type 0 where
  pub reader_gen : ℕ

-- A generation that one `Arc` refers to.
abbrev pub new_gen : RcuCslabGen
new_gen = record { strong = 1; pending_removes = []; next_gen = false }

abbrev pub add_ref : RcuCslabGen → RcuCslabGen
add_ref g = record g { strong = g.strong + 1 }

module _ {ℓ} {T : Type ℓ} where
  -- The loop of `RcuCslabGen::drop`; the items are returned, to be dropped.
  unfoldable pub finalize_all : List ℕ → Cslab T → Exec (Cslab T × List T)
  finalize_all [] c = value (c, [])
  finalize_all (idx ∷ pending) c = do
    first ← finalize_remove idx c
    others ← finalize_all pending first.0
    value (others.0, first.1 ∷ others.1)

  -- One reference fewer to the first generation of the list. The last one drops the generation,
  -- and with it the reference to the next.
  unfoldable pub release : List RcuCslabGen → Cslab T → Exec (List RcuCslabGen × Cslab T)
  release [] c = undefined
  release (g ∷ gens) c = elim (g.strong == 1) [
    | false ↦ value (record g { strong = g.strong - 1 } ∷ gens, c)
    | true ↦ do
      dropped ← finalize_all g.pending_removes c
      let next : Exec (List RcuCslabGen × Cslab T) = elim g.next_gen [
        | false ↦ value (gens, dropped.0)
        | true ↦ release gens dropped.0
      ]
      rest ← next
      value (record g { strong = 0; pending_removes = [] } ∷ rest.0, rest.1)
  ]

  -- The same for the generation of number `n`.
  unfoldable pub release_at : ℕ → List RcuCslabGen → Cslab T → Exec (List RcuCslabGen × Cslab T)
  release_at n [] c = undefined
  release_at zero (g ∷ gens) c = release (g ∷ gens) c
  release_at (suc n) (g ∷ gens) c = do rest ← release_at n gens c; value (g ∷ rest.0, rest.1)

  unfoldable pub with_fixed_capacity : (ℕ → Allocation) → ℕ → Exec (RcuCslab T)
  with_fixed_capacity allocates capacity = do
    cslab ← Slab.with_fixed_capacity allocates capacity
    value (record { capacity = capacity; writer = cslab; gens = new_gen ∷ []; cur_gen = 0 })

  unfoldable pub insert : T → RcuCslab T → Exec (RcuCslab T × Fallible ℕ)
  insert v s = do done ← Slab.insert v s.writer; value (record s { writer = done.0 }, done.1)

  unfoldable pub vacant_key : RcuCslab T → Fallible ℕ
  vacant_key s = Slab.vacant_key s.writer

  unfoldable pub get : RcuCslab T → ℕ → Exec (Option T)
  get s idx = Slab.get s.writer idx

  unfoldable pub reader : RcuCslab T → Exec (RcuCslab T × RcuCslabReader)
  reader s = do
    g ← index s.gens s.cur_gen
    value (record s { gens = set s.gens s.cur_gen (add_ref g) }, record { reader_gen = s.cur_gen })

  unfoldable pub clone_reader : RcuCslabReader → RcuCslab T → Exec (RcuCslab T × RcuCslabReader)
  clone_reader r s = do
    g ← index s.gens r.reader_gen
    value (record s { gens = set s.gens r.reader_gen (add_ref g) }, r)

  -- The drop of a reader.
  unfoldable pub drop_reader : RcuCslabReader → RcuCslab T → Exec (RcuCslab T)
  drop_reader r s = do
    done ← release_at r.reader_gen s.gens s.writer
    value (record s { gens = done.0; writer = done.1 })

  -- `RcuCslabGen::mark_removed` of the generation of number `n`.
  unfoldable pub gen_mark_removed : ℕ → ℕ → RcuCslab T → Exec (RcuCslab T)
  gen_mark_removed n idx s = do
    writer ← Slab.mark_removed idx s.writer
    g ← index s.gens n
    value (record s {
      writer = writer;
      gens = set s.gens n (record g { pending_removes = g.pending_removes ++ idx ∷ [] });
    })

  unfoldable pub mark_removed : ℕ → RcuCslab T → Exec (RcuCslab T)
  unfolding gen_mark_removed
  mark_removed idx s = gen_mark_removed s.cur_gen idx s

  -- The new generation is referred to by the old one and by `cur_gen`, which refers to the old one
  -- no longer.
  unfoldable pub advance_generation : RcuCslab T → Exec (RcuCslab T)
  advance_generation s = do
    g ← index s.gens s.cur_gen
    assert (not g.next_gen)
    done ←
        release_at s.cur_gen
          (set s.gens s.cur_gen (record g { next_gen = true }) ++ add_ref new_gen ∷ []) s.writer
    value (record s { writer = done.1; gens = done.0; cur_gen = s.cur_gen + 1 })

  unfoldable pub schedule_finalization : RcuCslab T → Exec (RcuCslab T × RcuCslabReader)
  unfolding advance_generation reader
  schedule_finalization s = do s' ← advance_generation s; reader s'

  unfoldable pub remove : ℕ → RcuCslab T → Exec (RcuCslab T × RcuCslabReader)
  unfolding mark_removed schedule_finalization
  remove idx s = do s' ← mark_removed idx s; schedule_finalization s'
