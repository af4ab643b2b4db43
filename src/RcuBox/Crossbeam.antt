-- ===== src/RcuBox/Crossbeam.antt =====
-- rcu/src/rcu.rs, feature rcu-crossbeam-epoch: the box is a `crossbeam_epoch::Atomic`, a pointer. The
-- crate is a parameter: its heap, in which a pointer is undefined to read once it is destroyed, and
-- its pins. What the code's comment hopes for is a law here: that a value is not destroyed
-- while a guard is pinned since before it was given to `defer_destroy`.
pub mod Guarded
pub mod Collector
use zpr_utils.Base.{◌≡◌, ◌≢◌, Option, none, some, Result, ok, err}
use zpr_utils.RcuBox.{Run, done, ◌>>=◌, RcuOps, Outcome}

-- What the code calls of `crossbeam_epoch`, on the heap. `alloc` is `Owned::new` and `Atomic::new`,
-- `unpin` the drop of a guard.
pub record Epochs (T : Type 0) : Type 1 where
  pub Heap : Type 0
  pub Guard : Type 0
  pub Ptr : Type 0
  pub empty : Heap
  pub pin : Heap → Heap × Guard
  pub unpin : Guard → Heap → Heap
  pub alloc : T → Heap → Heap × Ptr
  pub deref : Heap → Ptr → Run T
  pub defer_destroy : Guard → Ptr → Heap → Heap
  pub fetch_update :
      (Heap → Ptr → Run (Heap × Option Ptr)) → Heap → Ptr → Run (Heap × Ptr × Result Ptr Ptr)

-- `Live h p v`: `p` points to `v`, and was not given to `defer_destroy`. `Protects h g p v`: `p`
-- points to `v`, and the guard `g` is pinned since `p` was live.
pub record IsEpochs {T : Type 0} (epochs : Epochs T) : Type 1 where
  pub Live : epochs.Heap → epochs.Ptr → T → Type 0
  pub Protects : epochs.Heap → epochs.Guard → epochs.Ptr → T → Type 0
  pub deref-Live :
      (h : epochs.Heap) (p : epochs.Ptr) (v : T) → Live h p v → epochs.deref h p ≡ done v
  pub deref-Protects :
      (h : epochs.Heap) (g : epochs.Guard) (p : epochs.Ptr) (v : T)
      → Protects h g p v
      → epochs.deref h p ≡ done v
  pub pin-Live :
      (h : epochs.Heap) (p : epochs.Ptr) (v : T)
      → Live h p v
      → let pinned = epochs.pin h in Live pinned.0 p v × Protects pinned.0 pinned.1 p v
  pub pin-Protects :
      (h : epochs.Heap) (g : epochs.Guard) (p : epochs.Ptr) (v : T)
      → Protects h g p v
      → let pinned = epochs.pin h in Protects pinned.0 g p v × (g ≢ pinned.1)
  pub alloc-new : (h : epochs.Heap) (v : T) → let made = epochs.alloc v h in Live made.0 made.1 v
  pub alloc-Live :
      (h : epochs.Heap) (v w : T) (p : epochs.Ptr)
      → Live h p w
      → let made = epochs.alloc v h in Live made.0 p w × (made.1 ≢ p)
  pub alloc-Protects :
      (h : epochs.Heap) (v w : T) (g : epochs.Guard) (p : epochs.Ptr)
      → Protects h g p w
      → Protects (epochs.alloc v h).0 g p w
  pub defer_destroy-Live :
      (h : epochs.Heap) (g : epochs.Guard) (p q : epochs.Ptr) (v : T)
      → Live h q v
      → q ≢ p
      → Live (epochs.defer_destroy g p h) q v
  pub defer_destroy-Protects :
      (h : epochs.Heap) (g g' : epochs.Guard) (p q : epochs.Ptr) (v : T)
      → Protects h g' q v
      → Protects (epochs.defer_destroy g p h) g' q v
  pub unpin-Live :
      (h : epochs.Heap) (g : epochs.Guard) (p : epochs.Ptr) (v : T)
      → Live h p v
      → Live (epochs.unpin g h) p v
  pub unpin-Protects :
      (h : epochs.Heap) (g g' : epochs.Guard) (p : epochs.Ptr) (v : T)
      → Protects h g' p v
      → g' ≢ g
      → Protects (epochs.unpin g h) g' p v
  -- The function gets the pointer that is loaded, and its result, if any, replaces it. A call does
  -- not overlap another, so the pointer is as loaded at the exchange.
  pub fetch_update-some :
      (f : epochs.Heap → epochs.Ptr → Run (epochs.Heap × Option epochs.Ptr)) (h h' : epochs.Heap)
      (p q : epochs.Ptr)
      → f h p ≡ done (h', some q)
      → epochs.fetch_update f h p ≡ done (h', q, ok p)
  pub fetch_update-none :
      (f : epochs.Heap → epochs.Ptr → Run (epochs.Heap × Option epochs.Ptr)) (h h' : epochs.Heap)
      (p : epochs.Ptr)
      → f h p ≡ done (h', none)
      → epochs.fetch_update f h p ≡ done (h', p, err p)

module _ {T : Type 0} (epochs : Epochs T) where
  -- The pointer of the `Atomic`, and the heap that it points to.
  pub record RcuBox : Type 0 where
    pub heap : epochs.Heap
    pub cell : epochs.Ptr

  pub record RcuGuard : Type 0 where
    pub guard : epochs.Guard
    pub ptr : epochs.Ptr

  unfoldable pub new : T → RcuBox
  new v = let made = epochs.alloc v epochs.empty in record { heap = made.0; cell = made.1 }

  -- The pin is dropped at the end; what it did to the heap is not kept.
  unfoldable pub inspect : {U : Type 0} → (T → U) → RcuBox → Run U
  inspect f b = do ref ← epochs.deref (epochs.pin b.heap).0 b.cell; done (f ref)

  unfoldable pub get : RcuBox → Run (RcuBox × RcuGuard)
  get b =
      let pinned = epochs.pin b.heap in
      done (record b { heap = pinned.0 }, record { guard = pinned.1; ptr = b.cell })

  unfoldable pub deref : RcuBox → RcuGuard → Run T
  deref b g = epochs.deref b.heap g.ptr

  unfoldable pub drop_guard : RcuGuard → RcuBox → RcuBox
  drop_guard g b = record b { heap = epochs.unpin g.guard b.heap }

  -- `swap` gives the old pointer back, and the pin is dropped at the end.
  unfoldable pub write : T → RcuBox → Run RcuBox
  write v b =
      let pinned = epochs.pin b.heap in
      let made = epochs.alloc v pinned.0 in
      let old_value = b.cell in
      done (record {
        heap = epochs.unpin pinned.1 (epochs.defer_destroy pinned.1 old_value made.0);
        cell = made.1;
      })

  abbrev pub into_shared : Option T → epochs.Heap → epochs.Heap × Option epochs.Ptr
  into_shared none h = (h, none)
  into_shared (some v) h = ((epochs.alloc v h).0, some (epochs.alloc v h).1)

  -- The function that `update` gives to `fetch_update`.
  abbrev pub mapped :
      (T → Option T) → epochs.Heap → epochs.Ptr → Run (epochs.Heap × Option epochs.Ptr)
  mapped f h ptr = do ref ← epochs.deref h ptr; done (into_shared (f ref) h)

  abbrev finished :
      epochs.Guard → epochs.Heap × epochs.Ptr × Result epochs.Ptr epochs.Ptr → RcuBox × Outcome
  finished g (h, cell, ok old_value) =
      (record { heap = epochs.unpin g (epochs.defer_destroy g old_value h); cell = cell }, ok tt)
  finished g (h, cell, err found) = (record { heap = epochs.unpin g h; cell = cell }, err tt)

  unfoldable pub update : (T → Option T) → RcuBox → Run (RcuBox × Outcome)
  update f b =
      let pinned = epochs.pin b.heap in
      do r ← epochs.fetch_update (mapped f) pinned.0 b.cell; done (finished pinned.1 r)

  abbrev pub crossbeam_box : RcuOps T
  crossbeam_box = record {
    Box = RcuBox;
    Guard = RcuGuard;
    new = new;
    inspect = inspect;
    get = get;
    deref = deref;
    write = write;
    update = update;
  }
