-- ===== src/Cslab/Rcu/Kept.antt =====
-- That every step of a run keeps the invariant, and what the readers rely on.
use zpr_utils.Base.{suc, ◌+◌, ◌≡◌, refl, sym, subst, [], ◌∷◌, ◌++◌, set, arith}
use zpr_utils.Cslab.Model.{Model}
use zpr_utils.Cslab.Rcu.{
  insert, mark_removed, reader, clone_reader, drop_reader, schedule_finalization,
}
use zpr_utils.Cslab.Rcu.Entries.{iter_mut, drop_iter_mut, entry_remove, drop_entry}
use zpr_utils.Cslab.Rcu.Steps.{
  World, free, by_iter, by_entries, Step, inserts, marks, reads, schedules, clones, drops, iterates,
  finds, finds_none, finishes, returns, removes, forgets, reader_of,
}
use zpr_utils.Cslab.Rcu.Runs.{After, insert-After, mark_removed-After, reader-After}
use zpr_utils.Cslab.Rcu.Schedules.{schedule_finalization-After}
use zpr_utils.Cslab.Rcu.Sessions.{Session, Next}
use zpr_utils.Cslab.Rcu.Sessions.Keeping.{free-Next, clone_reader-Next, drop_reader-Next}
use zpr_utils.Cslab.Rcu.Sessions.Finds.{take_entry_at-Finds}
use zpr_utils.Cslab.Rcu.Sessions.Removing.{drop_entry-Next}
use zpr_utils.Cslab.Rcu.Sessions.Marking.{entry_remove-Next}
use zpr_utils.Cslab.Rcu.Sessions.Turns.{iter_mut-Next, drop_iter_mut-Next}
use zpr_utils.Cslab.Rcu.Outcomes.{
  determined, marked_present, Sound, Leaves, no_entries, free_step, reader_step, found-Next,
  no_entry-Next,
}

module _ {ℓ} {T : Type ℓ} where
  pub Step-Leaves : (w w' : World T) (m : Model T) → Sound w m → Step w w' → Leaves w m w'
  Step-Leaves w w' m now (inserts v r idle run same lends) =
      let (s', r', runs, left) = insert-After w.slab m w.readers now.inv v in
      free_step w w' m w.readers now idle same lends (
        determined (λ t. After w.slab m t.0 w.readers) (insert v w.slab) (s', r') (w'.slab, r) runs
          run left)
  Step-Leaves w w' m now (marks i idle run same lends) =
      let (u, slot) = marked_present w.slab m i now.inv.rep run in
      let (s', runs, left) = mark_removed-After w.slab m w.readers now.inv i u slot in
      free_step w w' m w.readers now idle same lends (
        determined (λ t. After w.slab m t w.readers) (mark_removed i w.slab) s' w'.slab runs run
          left)
  Step-Leaves w w' m now (reads n r idle run er same lends) =
      let (s', r', er', runs, left) = reader-After w.slab m w.readers now.inv in
      let found : n ≡ w.slab.cur_gen = cc in
      let count : r ≡ r' = cc in
      free_step w w' m (set w.readers w.slab.cur_gen (suc r')) now idle
        (rw (same, found, count) refl) lends
        (determined (λ t. After w.slab m t.0 (set w.readers w.slab.cur_gen (suc r')))
          (reader w.slab) (s', reader_of w.slab.cur_gen) (w'.slab, reader_of n) runs run left)
  Step-Leaves w w' m now (schedules n idle run same lends) =
      let (s', runs, left, gone) = schedule_finalization-After w.slab m w.readers now.inv in
      free_step w w' m (w.readers ++ 1 ∷ []) now idle same lends (
        determined (λ t. After w.slab m t.0 (w.readers ++ 1 ∷ [])) (schedule_finalization w.slab)
          (s', reader_of (w.slab.cur_gen + 1)) (w'.slab, reader_of n) runs run left)
  Step-Leaves w w' m now (clones n r er few run same lends) =
      let (s', runs, next) =
        clone_reader-Next w.slab m w.readers w.borrow w.entries now n r er few in
      reader_step w w' m (set w.readers n (suc (suc r))) same lends (
        determined (λ t. Next w.slab m t.0 (set w.readers n (suc (suc r))) w.borrow w.entries)
          (clone_reader (reader_of n) w.slab) (s', reader_of n) (w'.slab, reader_of n) runs run
          next)
  Step-Leaves w w' m now (drops n r er few run same lends) =
      let (s', runs, next) =
        drop_reader-Next w.slab m w.readers w.borrow w.entries now n r er few in
      reader_step w w' m (set w.readers n r) same lends (
        determined (λ t. Next w.slab m t (set w.readers n r) w.borrow w.entries)
          (drop_reader (reader_of n) w.slab) s' w'.slab runs run next)
  Step-Leaves w w' m now (iterates it idle run e) =
      let none_left = no_entries w.borrow w.slab m w.readers w.entries idle now.lent in
      let (it', runs, next) = iter_mut-Next w.slab m w.readers now.inv in
      subst (Leaves w m) (sym e) (
        subst (λ t. Next w.slab m w.slab w.readers (by_iter it) t) (sym none_left)
          (determined (λ t. Next w.slab m w.slab w.readers (by_iter t) []) (iter_mut w.slab) it' it
            runs run next))
  Step-Leaves w w' m now (finds end it it' s' x r borrowed run er e) =
      let session = subst (λ b. Session w.slab m w.readers b w.entries) borrowed now in
      subst (Leaves w m) (sym e) (
        found-Next w.slab m w.readers it w.entries session _ it' s' x r
          (take_entry_at-Finds w.slab m w.readers it w.entries session end) run er)
  Step-Leaves w w' m now (finds_none end it it' s' borrowed run e) =
      let session = subst (λ b. Session w.slab m w.readers b w.entries) borrowed now in
      subst (Leaves w m) (sym e) (
        no_entry-Next w.slab m w.readers it w.entries session _ it' s'
          (take_entry_at-Finds w.slab m w.readers it w.entries session end) run)
  Step-Leaves w w' m now (finishes it s' borrowed run e) =
      let session = subst (λ b. Session w.slab m w.readers b w.entries) borrowed now in
      let (s'', runs, next) = drop_iter_mut-Next w.slab m w.readers it w.entries session in
      subst (Leaves w m) (sym e) (
        determined (λ t. Next w.slab m t (w.readers ++ 0 ∷ []) by_entries w.entries)
          (drop_iter_mut w.slab) s'' s' runs run next)
  Step-Leaves w w' m now (returns borrowed none_left e) = subst (Leaves w m) (sym e) (
      subst (λ t. Next w.slab m w.slab w.readers free t) (sym none_left)
        (free-Next w.slab w.slab m w.readers (record {
          model = m;
          inv = now.inv;
          protects = λ n i r v er le guarded. guarded;
          cur = omega arith;
        })))
  Step-Leaves w w' m now (removes before behind x s' r taken run er e) =
      let session = subst (λ t. Session w.slab m w.readers w.borrow t) taken now in
      let (s'', runs, next) =
        entry_remove-Next w.slab m w.readers before behind x w.borrow r session er in
      subst (Leaves w m) (sym e) (
        determined (λ t. Next w.slab m t (set w.readers x.entry_gen r) w.borrow (before ++ behind))
          (entry_remove x w.slab) s'' s' runs run next)
  Step-Leaves w w' m now (forgets before behind x s' r taken run er e) =
      let session = subst (λ t. Session w.slab m w.readers w.borrow t) taken now in
      let (s'', runs, next) =
        drop_entry-Next w.slab m w.readers before behind x w.borrow r session er in
      subst (Leaves w m) (sym e) (
        determined (λ t. Next w.slab m t (set w.readers x.entry_gen r) w.borrow (before ++ behind))
          (drop_entry x w.slab) s'' s' runs run next)
