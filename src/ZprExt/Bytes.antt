-- ===== src/ZprExt/Bytes.antt =====
-- zpr-ext/src/bytes.rs: `BufExt`. What the bytes crate provides is an interface: its operations
-- that the code calls, what a buffer still holds or has been given, and the documented behaviour.
use zpr_utils.Base.{ℕ, ◌≤◌, ◌<◌, ◌≡◌, List, ◌++◌, length, replicate, length-replicate}
use zpr_utils.Base.Exec.{Exec, value, panic}

-- `bytes::Buf`: `copy_to_slice` replaces all the bytes of a slice by the next ones, or panics.
pub record Buf (B : Type 0) : Type 0 where
  pub remaining : B → ℕ
  pub copy_to_slice : List ℕ → B → Exec (List ℕ × B)
  pub bytes : B → List ℕ
  pub remaining_bytes : (b : B) → remaining b ≡ length (bytes b)
  pub copies :
      (dst front rest : List ℕ) (b : B)
      → bytes b ≡ front ++ rest
      → length dst ≡ length front
      → (b' : B) × (copy_to_slice dst b ≡ value (front, b')) × (bytes b' ≡ rest)
  pub panics : (dst : List ℕ) (b : B) → remaining b < length dst → copy_to_slice dst b ≡ panic

-- `bytes::BufMut`: `put` appends, or panics. `chunk_len` is the length of the slice of `chunk_mut`,
-- `store` writes to the start of that slice, and `advance_mut` counts what is there as written.
pub record BufMut (B : Type 0) : Type 0 where
  pub remaining_mut : B → ℕ
  pub put : List ℕ → B → Exec B
  pub chunk_len : B → ℕ
  pub store : List ℕ → B → B
  pub advance_mut : ℕ → B → Exec B
  pub written : B → List ℕ
  pub puts :
      (src : List ℕ) (b : B)
      → length src ≤ remaining_mut b
      → (b' : B) × (put src b ≡ value b') × (written b' ≡ written b ++ src)
  pub advances :
      (src : List ℕ) (b : B)
      → length src ≤ chunk_len b
      → (b' : B) × (advance_mut (length src) (store src b) ≡ value b')
        × (written b' ≡ written b ++ src)

-- `slice_assume_init_mut` of std/mem.rs: a `MaybeUninit` slice is given as the bytes that it
-- happens to hold.
abbrev pub slice_assume_init_mut : List ℕ → List ℕ
slice_assume_init_mut slice = slice

module _ {B : Type 0} (buf : Buf B) where
  unfoldable pub copy_to_maybe_uninit_slice_mut : List ℕ → B → Exec (List ℕ × B)
  copy_to_maybe_uninit_slice_mut dst b = buf.copy_to_slice (slice_assume_init_mut dst) b

  unfoldable pub get_array : ℕ → B → Exec (List ℕ × B)
  get_array n b = buf.copy_to_slice (replicate n 0) b

  pub get_array-front :
      (front rest : List ℕ) (b : B)
      → buf.bytes b ≡ front ++ rest
      → (b' : B) × (get_array (length front) b ≡ value (front, b')) × (buf.bytes b' ≡ rest)
  unfolding get_array
  get_array-front front rest b e =
      buf.copies (replicate (length front) 0) front rest b e (length-replicate (length front) 0)
