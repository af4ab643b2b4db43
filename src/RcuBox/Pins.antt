-- ===== src/RcuBox/Pins.antt =====
-- What guards of a box give, whatever happens to the box while they are held.
use zpr_utils.Base.{
  ℕ, ◌≡◌, refl, sym, ap, ◌∙◌, subst, Option, Option-cases, none, some, ◌⊎◌, inl, inr, List, ok, err,
}
use zpr_utils.Base.Exec.{value}
use zpr_utils.Cslab.Storage.{get_impl, Allocation}
use zpr_utils.Cslab.Model.{lookup}
use zpr_utils.Cslab.Reader
use zpr_utils.Cslab.Refines.Create.{LayoutBounded}
use zpr_utils.Cslab.Refines.Lookup.{found, contains_key-lookup, get_impl-lookup}
use zpr_utils.Cslab.Rcu.{RcuCslab, RcuCslabReader, with_fixed_capacity}
use zpr_utils.Cslab.Rcu.Steps.{World, Reach, Holding, new_world}
use zpr_utils.Cslab.Rcu.Readers.{reach-Inv, reach-get_unchecked}
use zpr_utils.Cslab.Rcu.Entries.{reader_get, reader_contains_key, reader_get_unchecked}
use zpr_utils.RcuBox.{Run, done, blocked, panic, undefined, ◌>>=◌, RcuOps, IsRcuBox}
use zpr_utils.RcuBox.Updates.{Call, run_calls, run_calls-pinned}
use zpr_utils.RcuBox.Guards.{
  RcuOptionGuard, option_from, option_try_from, option_deref, RcuCslabEntryGuard, get_guarded,
  entry_guard_deref, entry_if,
}

>>=-eq-done {ℓ κ} :
    {A : Type ℓ} {B : Type κ} (run : Run A) (next : A → Run B) {b : B}
    → (run >>= next) ≡ done b
    → (a : A) × (run ≡ done a) × (next a ≡ done b)
>>=-eq-done (done a) next e = (a, refl, e)
>>=-eq-done blocked next e = cc
>>=-eq-done panic next e = cc
>>=-eq-done undefined next e = cc

module _ {T : Type 0} (ops : RcuOps (Option T)) (laws : IsRcuBox ops) where
  -- A guard of a box that implements the interface is turned into an option guard, by either
  -- conversion, exactly if the box held some value when the guard was made, and is refused if it
  -- held none; an option guard gives that value after any writes and updates that have come to an
  -- end since, without undefined behaviour.
  pub option_from-pinned :
      (b b' b'' : ops.Box) (g : ops.Guard) (o : Option T) (calls : List (Call (Option T)))
      → laws.Holds b o
      → ops.get b ≡ done (b', g)
      → run_calls ops calls b' ≡ done b''
      → ((o ≡ none)
          × (option_from ops b' g ≡ done none)
          × (option_try_from ops b' g ≡ done (err tt)))
        ⊎ ((v : T) × (og : RcuOptionGuard ops) × (o ≡ some v)
            × (option_from ops b' g ≡ done (some og))
            × (option_try_from ops b' g ≡ done (ok og))
            × (option_deref ops b'' og ≡ done v))
  unfolding option_from option_try_from option_deref
  option_from-pinned b b' b'' g o calls holds got run =
      let (b1, g1, runs, holds1, held1, item1) = laws.get-Holds b o holds in
      let same : b1 ≡ b' = cc in
      let same_guard : g1 ≡ g = cc in
      let held = subst (λ t. laws.Held b' t) same_guard (subst (λ t. laws.Held t g1) same held1) in
      let item : ops.deref b' g ≡ done o =
        subst (λ t. ops.deref b' t ≡ done o) same_guard
          (subst (λ t. ops.deref t g1 ≡ done o) same item1) in
      let later = (run_calls-pinned ops laws calls b' b'' o g held item run).1 in
      elim (Option-cases o) [
        | inl empty ↦ inl (empty, rw (item, empty) refl, rw (item, empty) refl)
        | inr (v, full) ↦ inr (
          v,
          record { guard = g },
          full,
          rw (item, full) refl,
          rw (item, full) refl,
          rw (later, full) refl,
        )
      ]

module _ {T : Type 0} (allocates : ℕ → Allocation) (bounded : LayoutBounded allocates)
    (capacity : ℕ) (s : RcuCslab T) (created : with_fixed_capacity allocates capacity ≡ value s)
    (ops : RcuOps RcuCslabReader) (laws : IsRcuBox ops) where
  by_lookup :
      (w w' : World T) (b b1 b' b'' : ops.Box) (r : RcuCslabReader) (g : ops.Guard) (key : ℕ)
      (e : RcuCslabEntryGuard ops) (calls : List (Call RcuCslabReader)) (o : Option T)
      → Reach (new_world s) w
      → laws.Held b1 g
      → ops.deref b1 g ≡ done r
      → get_impl w.slab.writer.storage key ≡ value o
      → ◌≡◌ {A = Run (ops.Box × Option (RcuCslabEntryGuard ops))}
          (done (b1, entry_if ops (found o) g key))
          (done (b', some e))
      → Holding r.reader_gen w w'
      → run_calls ops calls b' ≡ done b''
      → (v : T) × (reader_get r w.slab key ≡ value (some v))
        × (entry_guard_deref ops w'.slab b'' e ≡ done v)
  unfolding reader_get Reader.get reader_get_unchecked Reader.get_unchecked entry_guard_deref
  by_lookup w w' b b1 b' b'' r g key e calls none reach held item read out holding run = cc
  by_lookup w w' b b1 b' b'' r g key e calls (some v) reach held item read out holding run =
      let same : b1 ≡ b' = cc in
      let same_entry : ◌≡◌ {A = RcuCslabEntryGuard ops} (record { guard = g; key = key }) e = cc in
      let run1 : run_calls ops calls b1 ≡ done b'' = ap (run_calls ops calls) same ∙ run in
      let later = (run_calls-pinned ops laws calls b1 b'' r g held item run1).1 in
      let safe =
        reach-get_unchecked allocates bounded capacity s created w w' r.reader_gen key v reach read
          holding in
      (
        v,
        read,
        subst (λ t. entry_guard_deref ops w'.slab b'' t ≡ done v) same_entry
            (rw (later, safe) refl),
      )

  -- In every run of a new slab, of which layouts exist only for capacities below 2 ^ 63, of its
  -- readers, and of the passes of `iter_mut` and their entries: with a reader in a box that
  -- implements the interface, an entry guard from `get_guarded` gives the item that the reader's `get` returned then, at every later time,
  -- without undefined behaviour, whatever writes and updates of the box have come to an end, as
  -- long as a reader of that reader's generation is held.
  pub get_guarded-pinned :
      (w w' : World T) (b b' b'' : ops.Box) (r : RcuCslabReader) (key : ℕ)
      (e : RcuCslabEntryGuard ops) (calls : List (Call RcuCslabReader))
      → Reach (new_world s) w
      → laws.Holds b r
      → get_guarded ops w.slab key b ≡ done (b', some e)
      → Holding r.reader_gen w w'
      → run_calls ops calls b' ≡ done b''
      → (v : T) × (reader_get r w.slab key ≡ value (some v))
        × (entry_guard_deref ops w'.slab b'' e ≡ done v)
  unfolding get_guarded reader_contains_key Reader.contains_key
  get_guarded-pinned w w' b b' b'' r key e calls reach holds run holding later =
      let (m, inv) = reach-Inv allocates bounded capacity s created w reach in
      let (b1, g, runs, holds1, held, item) = laws.get-Holds b r holds in
      let known = contains_key-lookup w.slab.writer m inv.rep key in
      let outcome : get_guarded ops w.slab key b
          ≡ done ((b1, entry_if ops (found (lookup m key)) g key)) =
        rw (runs, item, known) refl in
      by_lookup w w' b b1 b' b'' r g key e calls (lookup m key) reach held item
        (get_impl-lookup w.slab.writer m inv.rep key) (sym outcome ∙ run) holding later
