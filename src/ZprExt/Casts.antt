-- ===== src/ZprExt/Casts.antt =====
-- zpr-ext/src: std/num.rs and std/vec.rs, whose bodies are casts between types of the same
-- layout, and socket2.rs, which fills in an address.
use zpr_utils.Base.{ℕ, zero, suc, ◌≡◌, ◌≢◌, refl, Option, none, some, List, [], ◌∷◌}
use zpr_utils.Base.Exec.{Exec, value, panic}

-- `std::num::NonZero`, whose `Option` is laid out as the number, with zero for `None`.
pub record NonZero : Type 0 where
  pub get : ℕ
  pub nonzero : get ≢ 0

abbrev pub nonzero_new : ℕ → Option NonZero
nonzero_new zero = none
nonzero_new (suc n) = some (record { get = suc n; nonzero = λ e. cc })

unfoldable pub unwrap_or_zero : Option NonZero → ℕ
unwrap_or_zero none = 0
unwrap_or_zero (some n) = n.get

-- It takes back what `NonZero::new` did, for every number.
pub unwrap_or_zero-nonzero_new : (n : ℕ) → unwrap_or_zero (nonzero_new n) ≡ n
unfolding unwrap_or_zero
unwrap_or_zero-nonzero_new zero = refl
unwrap_or_zero-nonzero_new (suc n) = refl

module _ {ℓ κ} {T : Type ℓ} {U : Type κ} where
  -- `map(|_| unreachable!())`, collected.
  abbrev map_unreachable : List T → Exec (List U)
  map_unreachable [] = value []
  map_unreachable (x ∷ xs) = panic

  -- The vector is cleared first.
  unfoldable pub recycle : List T → Exec (List U)
  recycle xs = let cleared : List T = [] in map_unreachable cleared

  -- So it never panics, and what is left is empty.
  pub recycle-empty : (xs : List T) → recycle xs ≡ value []
  unfolding recycle
  recycle-empty xs = refl

-- `libc::sockaddr_storage`, with the length of the address in it.
pub record SockAddr : Type 0 where
  pub ss_family : ℕ
  pub rest : List ℕ
  pub len : ℕ

-- `SockAddr::try_init` starts from zeros; `af_unspec` and `sockaddr_size` are libc's.
unfoldable pub new_unspec : SockAddr → ℕ → ℕ → SockAddr
new_unspec zeroed af_unspec sockaddr_size = record zeroed {
  ss_family = af_unspec;
  len = sockaddr_size;
}
