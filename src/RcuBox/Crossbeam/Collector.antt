-- ===== src/RcuBox/Crossbeam/Collector.antt =====
-- A heap as crossbeam-epoch may have it: what was given to `defer_destroy` is destroyed as soon as
-- no guard is pinned. Instances of the theorems use it.
use zpr_utils.Base.{
  ℕ, ◌+◌, ◌<◌, ◌==◌, ◌≡◌, ◌≢◌, refl, Bool, true, false, Option, none, some, Result, ok, err, List,
  [], ◌∷◌, if◌then◌else◌, ◌||◌, arith,
}
use zpr_utils.RcuBox.{done, ◌>>=◌, unwrap_unchecked}
use zpr_utils.RcuBox.Crossbeam.{Epochs, IsEpochs}

pub record Heap (T : Type 0) : Type 0 where
  pub items : ℕ → Option T
  pub next : ℕ
  pub garbage : ℕ → Bool
  pub pins : List ℕ
  pub next_guard : ℕ

abbrev is_in : ℕ → List ℕ → Bool
is_in g [] = false
is_in g (x ∷ xs) = g == x || is_in g xs

abbrev removed : ℕ → List ℕ → List ℕ
removed g [] = []
removed g (x ∷ xs) = let rest = removed g xs in if x == g then rest else x ∷ rest

is_in-removed :
    (g g' : ℕ) (xs : List ℕ) → g' ≢ g → is_in g' xs ≡ true → is_in g' (removed g xs) ≡ true
is_in-removed g g' [] ne h = h
is_in-removed g g' (x ∷ xs) ne h = ground (arith, is_in-removed g g' xs)

module _ {T : Type 0} where
  -- The items, by the guards that are left.
  abbrev swept : List ℕ → Heap T → ℕ → Option T
  swept [] h = λ p. if h.garbage p then none else h.items p
  swept (g ∷ pins) h = h.items

  abbrev pub unpinned : ℕ → Heap T → Heap T
  unpinned g h = let rest = removed g h.pins in record h { items = swept rest h; pins = rest }

  abbrev pub pinned : Heap T → Heap T × ℕ
  pinned h =
      (record h { pins = h.next_guard ∷ h.pins; next_guard = h.next_guard + 1 }, h.next_guard)

  abbrev pub made : T → Heap T → Heap T × ℕ
  made v h = (
    record h {
      items = λ p. if p == h.next then some v else h.items p;
      garbage = λ p. if p == h.next then false else h.garbage p;
      next = h.next + 1;
    },
    h.next,
  )

  abbrev pub deferred : ℕ → Heap T → Heap T
  deferred p h = record h { garbage = λ q. if q == p then true else h.garbage q }

  abbrev fetched : ℕ → Heap T × Option ℕ → Heap T × ℕ × Result ℕ ℕ
  fetched p (h, none) = (h, p, err p)
  fetched p (h, some q) = (h, q, ok p)

  abbrev IsLive : Heap T → ℕ → T → Type 0
  IsLive h p v = (h.items p ≡ some v) × (p < h.next) × (h.garbage p ≡ false)

  abbrev IsProtected : Heap T → ℕ → ℕ → T → Type 0
  IsProtected h g p v =
      (h.items p ≡ some v) × (p < h.next) × (g < h.next_guard) × (is_in g h.pins ≡ true)

  unpinned-IsLive : (h : Heap T) (g p : ℕ) (v : T) → IsLive h p v → IsLive (unpinned g h) p v
  unpinned-IsLive h g p v live = by_pins (removed g h.pins)
    where
      by_pins : (rest : List ℕ) → IsLive (record h { items = swept rest h; pins = rest }) p v
      by_pins [] = (rw live.2 live.0, live.1, live.2)
      by_pins (x ∷ rest) = live

  unpinned-IsProtected :
      (h : Heap T) (g g' p : ℕ) (v : T)
      → IsProtected h g' p v
      → g' ≢ g
      → IsProtected (unpinned g h) g' p v
  unpinned-IsProtected h g g' p v held ne =
      by_pins (removed g h.pins) (is_in-removed g g' h.pins ne held.3)
    where
      by_pins :
          (rest : List ℕ)
          → is_in g' rest ≡ true
          → IsProtected (record h { items = swept rest h; pins = rest }) g' p v
      by_pins [] i = cc
      by_pins (x ∷ rest) i = (held.0, held.1, held.2, i)

abbrev pub collector : (T : Type 0) → Epochs T
collector T = record {
  Heap = Heap T;
  Guard = ℕ;
  Ptr = ℕ;
  empty = record { items = λ p. none; next = 0; garbage = λ p. false; pins = []; next_guard = 0 };
  pin = pinned;
  unpin = unpinned;
  alloc = made;
  deref = λ h p. unwrap_unchecked (h.items p);
  defer_destroy = λ g p h. deferred p h;
  fetch_update = λ f h p. (do r ← f h p; done (fetched p r));
}

pub collector-IsEpochs : (T : Type 0) → IsEpochs (collector T)
collector-IsEpochs T = record {
  Live = IsLive;
  Protects = IsProtected;
  deref-Live = λ h p v live. rw live.0 refl;
  deref-Protects = λ h g p v held. rw held.0 refl;
  pin-Live = λ h p v live. (live, ground arith);
  pin-Protects = λ h g p v held. (ground (arith, held), ground (arith, held));
  alloc-new = λ h v. ground arith;
  alloc-Live = λ h v w p live. ground (arith, live);
  alloc-Protects = λ h v w g p held. ground (arith, held);
  defer_destroy-Live = λ h g p q v live ne. ground (arith, live, ne);
  defer_destroy-Protects = λ h g g' p q v held. held;
  unpin-Live = unpinned-IsLive;
  unpin-Protects = unpinned-IsProtected;
  fetch_update-some = λ f h h' p q runs. rw runs refl;
  fetch_update-none = λ f h h' p runs. rw runs refl;
}
