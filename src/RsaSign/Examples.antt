-- ===== src/RsaSign/Examples.antt =====
-- A key whose kind decides its number.
use Prim.Native.String.{String}
use zpr_utils.Base.{ℕ, zero, suc, ◌≡◌, ◌↔◌, refl, List, [], ◌∷◌, Result, ok, err}
use zpr_utils.RsaSign.{load_rsa_key, IsKey, load_rsa_key_iff, unsupported_tag}

-- The text starts with a number for its label.
decode_text : List ℕ → Result ℕ (String × List ℕ)
decode_text [] = err 0
decode_text (zero ∷ der) = ok ("RSA PRIVATE KEY", der)
decode_text (suc zero ∷ der) = ok ("PRIVATE KEY", der)
decode_text (suc (suc n) ∷ der) = ok ("EC PRIVATE KEY", der)

abbrev parse : ℕ → List ℕ → Result ℕ ℕ
parse n [] = err 1
parse n (b ∷ der) = ok n

load_rsa_key_iff_example :
    (load_rsa_key decode_text (parse 10) (parse 20) (1 ∷ 5 ∷ []) ≡ ok 20)
    ↔ IsKey decode_text (parse 10) (parse 20) (1 ∷ 5 ∷ []) 20
load_rsa_key_iff_example = load_rsa_key_iff decode_text (parse 10) (parse 20) (1 ∷ 5 ∷ []) 20

other_tag :
    load_rsa_key decode_text (parse 10) (parse 20) (2 ∷ 5 ∷ [])
    ≡ err (unsupported_tag "EC PRIVATE KEY")
unfolding load_rsa_key decode_text
other_tag = refl
