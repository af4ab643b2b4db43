-- ===== src/RcuBox/Crossbeam/Guarded.antt =====
-- The box of crossbeam-epoch implements the interface: what a guard points to is not destroyed.
use zpr_utils.Base.{◌≡◌}
use zpr_utils.RcuBox.{done}
use zpr_utils.RcuBox.Crossbeam.{Epochs, IsEpochs, RcuBox, RcuGuard, deref}

module _ {T : Type 0} (epochs : Epochs T) (laws : IsEpochs epochs) where
  abbrev Holds : RcuBox epochs → T → Type 0
  Holds b v = laws.Live b.heap b.cell v

  -- What a write, or an update with a result, makes of the box, from what the function's pin made.
  abbrev exchanged : T → RcuBox epochs → RcuBox epochs
  exchanged v b =
      let pinned = epochs.pin b.heap in
      let made = epochs.alloc v pinned.0 in
      record {
        heap = epochs.unpin pinned.1 (epochs.defer_destroy pinned.1 b.cell made.0);
        cell = made.1;
      }

  abbrev kept : RcuBox epochs → RcuBox epochs
  kept b = let pinned = epochs.pin b.heap in record b { heap = epochs.unpin pinned.1 pinned.0 }

  -- The box is live, and what the guard points to is protected by its pin.
  abbrev Held : RcuBox epochs → RcuGuard epochs → Type 0
  Held b g = ((u : T) × Holds b u) × ((x : T) × laws.Protects b.heap g.guard g.ptr x)

  abbrev Same : RcuBox epochs → RcuGuard epochs → T → Type 0
  Same b g v = Held b g × (deref epochs b g ≡ done v)
