-- ===== src/RsaSign.antt =====
-- zpr-utils/src/rsa_sign.rs: a key is loaded from a PEM text by its label, and signs a message. What
-- pem_rfc7468 and aws_lc_rs do is a parameter; a signature is written to a buffer, or refused.
mod Examples
use Prim.Native.String.{String}
use text.Mathlib.Text.{◌==◌}
use text.Mathlib.TextEquality.{eq_iff}
use zpr_utils.Base.{
  ℕ, ◌≡◌, ◌↔◌, ◌⊎◌, inl, inr, refl, ap, ◌∙◌, Bool, Bool-cases, true, false, List, ◌∷◌, [],
  if◌then◌else◌, replicate, length, length-replicate, Result, ok, err, ◌>>=◌, arith,
}
use zpr_utils.Base.Exec.{Exec, value, panic}

-- `BoxError`: what a callee reports, or that the label is of no kind of key.
pub data BoxError {ℓ} (E : Type ℓ) : Type ℓ where
  boxed : E → BoxError E
  unsupported_tag : String → BoxError E

abbrev boxed_err {ℓ κ} : {E : Type ℓ} {A : Type κ} → Result E A → Result (BoxError E) A
boxed_err (ok a) = ok a
boxed_err (err e) = err (boxed e)

module _ {E RsaKeyPair : Type 0} (decode_vec : List ℕ → Result E (String × List ℕ))
    (from_der from_pkcs8 : List ℕ → Result E RsaKeyPair) where
  -- The `match` on the label.
  abbrev key_of : String → List ℕ → Result (BoxError E) RsaKeyPair
  key_of label der =
      if label == "RSA PRIVATE KEY"
      then boxed_err (from_der der)
      else (if label == "PRIVATE KEY"
          then boxed_err (from_pkcs8 der)
          else err (unsupported_tag label))

  unfoldable pub load_rsa_key : List ℕ → Result (BoxError E) RsaKeyPair
  load_rsa_key pem_bytes = do decoded ← boxed_err (decode_vec pem_bytes); key_of decoded.0 decoded.1

  -- What a text has to be for a key: DER of the kind that its label says.
  abbrev pub IsKey : List ℕ → RsaKeyPair → Type 0
  IsKey pem_bytes key =
      ((der : List ℕ) × (decode_vec pem_bytes ≡ ok ("RSA PRIVATE KEY", der))
        × (from_der der ≡ ok key))
      ⊎ ((der : List ℕ) × (decode_vec pem_bytes ≡ ok ("PRIVATE KEY", der))
          × (from_pkcs8 der ≡ ok key))

  boxed_err-ok : {A : Type 0} (r : Result E A) (a : A) → (boxed_err r ≡ ok a) ↔ (r ≡ ok a)
  boxed_err-ok (ok b) a = ((λ e. cc), (λ e. cc))
  boxed_err-ok (err b) a = ((λ e. cc), (λ e. cc))

  key_of-ok :
      (pem_bytes : List ℕ) (label : String) (der : List ℕ) (key : RsaKeyPair)
      → decode_vec pem_bytes ≡ ok (label, der)
      → key_of label der ≡ ok key
      → IsKey pem_bytes key
  key_of-ok pem_bytes label der key decoded e = elim (Bool-cases (label == "RSA PRIVATE KEY")) [
    | inl rsa ↦
        let same : label ≡ "RSA PRIVATE KEY" = (eq_iff label "RSA PRIVATE KEY").0 rsa in
        inl (
          der,
          decoded ∙ ap (λ (l : String). ok (l, der)) same,
          (boxed_err-ok (from_der der) key).0 (rw rsa at e),
        )
    | inr other ↦ elim (Bool-cases (label == "PRIVATE KEY")) [
      | inl pkcs8 ↦
          let same : label ≡ "PRIVATE KEY" = (eq_iff label "PRIVATE KEY").0 pkcs8 in
          inr (
            der,
            decoded ∙ ap (λ (l : String). ok (l, der)) same,
            (boxed_err-ok (from_pkcs8 der) key).0 (rw (other, pkcs8) at e),
          )
      | inr neither ↦ let out = rw (other, neither) at e in cc
    ]
  ]

  -- A key is loaded exactly from a text that decodes under one of the two labels to DER that the
  -- label's parser makes that key of.
  pub load_rsa_key_iff :
      (pem_bytes : List ℕ) (key : RsaKeyPair)
      → (load_rsa_key pem_bytes ≡ ok key) ↔ IsKey pem_bytes key
  unfolding load_rsa_key
  load_rsa_key_iff pem_bytes key = (forth (decode_vec pem_bytes) refl, back)
    where
      forth :
          (r : Result E (String × List ℕ))
          → decode_vec pem_bytes ≡ r
          → load_rsa_key pem_bytes ≡ ok key
          → IsKey pem_bytes key
      forth (ok (label, der)) e loaded = key_of-ok pem_bytes label der key e (rw e at loaded)
      forth (err failed) e loaded = let out = rw e at loaded in cc

      back : IsKey pem_bytes key → load_rsa_key pem_bytes ≡ ok key
      back (inl (der, decoded, parsed)) = rw (decoded, parsed) refl
      back (inr (der, decoded, parsed)) = rw (decoded, parsed) refl

module _ {RsaKeyPair : Type 0} (public_modulus_len : RsaKeyPair → ℕ)
    (sign : RsaKeyPair → List ℕ → List ℕ → Result (Unit {0}) (List ℕ)) where
  unfoldable pub sign_rsa_key : RsaKeyPair → List ℕ → Exec (List ℕ)
  sign_rsa_key key msg = elim (sign key msg (replicate (public_modulus_len key) 0)) [
    | ok signature ↦ value signature
    | err e ↦ panic
  ]

  -- If signing fills any buffer as long as the modulus, it never panics, and the signature is as
  -- long as the modulus.
  pub sign_rsa_key-length :
      ((key : RsaKeyPair) (msg buffer : List ℕ)
        → length buffer ≡ public_modulus_len key
        → (signature : List ℕ) × (sign key msg buffer ≡ ok signature)
          × (length signature ≡ length buffer))
      → (key : RsaKeyPair) (msg : List ℕ)
      → (signature : List ℕ) × (sign_rsa_key key msg ≡ value signature)
        × (length signature ≡ public_modulus_len key)
  unfolding sign_rsa_key
  sign_rsa_key-length signs key msg =
      let full = length-replicate (public_modulus_len key) 0 in
      let (signature, runs, long) = signs key msg (replicate (public_modulus_len key) 0) full in
      (signature, rw (sign_rsa_key, runs) refl, long ∙ full)
