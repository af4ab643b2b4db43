-- ===== src/Cslab/Reader.antt =====
-- cslab/src/lib.rs: `CslabReader`, a handle that shares the slab's storage. Each operation is given
-- that storage as it is at the time.
use zpr_utils.Base.{ℕ, Bool, Option}
use zpr_utils.Base.Exec.{Exec}
use zpr_utils.Cslab.Storage.{CslabStorage, get_impl, contains_key_impl, get_unchecked_impl}
use zpr_utils.Cslab.Slab.{Cslab}
use zpr_utils.Cslab.Iter.{Iter, iter_new}

-- The storage that the handle's `Arc` is of.
abbrev pub CslabReader {ℓ} : Type ℓ → Type ℓ
CslabReader T = CslabStorage T

module _ {ℓ} {T : Type ℓ} where
  unfoldable pub slab_reader : Cslab T → CslabReader T
  slab_reader c = c.storage

  unfoldable pub get : CslabReader T → ℕ → Exec (Option T)
  get r idx = get_impl r idx

  unfoldable pub contains_key : CslabReader T → ℕ → Exec Bool
  contains_key r idx = contains_key_impl r idx

  unfoldable pub get_unchecked : CslabReader T → ℕ → Exec T
  get_unchecked r idx = get_unchecked_impl r idx

  unfoldable pub iter : CslabReader T → Exec (Iter T)
  unfolding iter_new
  iter r = iter_new r
