-- ===== src/NetDefs/Checksums.antt =====
-- The checksum of an L4 payload against the layout that RFC 793 and RFC 8200 give the pseudo-header.
use zpr_utils.Base.{
  ℕ, ◌%◌, ◌^◌, ◌<◌, ◌≡◌, ◌⊎◌, inl, inr, refl, sym, ap, ◌∙◌, false, List, [], ◌∷◌, ◌++◌, ◌==◌,
  if◌then◌else◌, length, arith,
}
use zpr_utils.Base.Exec.{Exec, value, panic}
use zpr_utils.NetDefs.Address.{IpAddress, bytes4, bytes16, read_as_v4}
use zpr_utils.NetDefs.Packet.{
  ChecksumApi, be16, be32, checksum_ip_pseudo_header, inet_l4_checksum, validate_inet_l4_checksum,
  both_zero,
}

-- The bytes of the pseudo-header; that of IPv6 has three zero bytes before the protocol.
abbrev pub header4 : IpAddress → IpAddress → ℕ → ℕ → List ℕ
header4 src dst protocol n =
    bytes4 (read_as_v4 src) ++ bytes4 (read_as_v4 dst) ++ 0 ∷ protocol ∷ be16 (n % 2 ^ 16)

abbrev pub header6 : IpAddress → IpAddress → ℕ → ℕ → List ℕ
header6 src dst protocol n = bytes16 src.v6 ++ bytes16 dst.v6 ++ be32 n ++ 0 ∷ 0 ∷ 0 ∷ protocol ∷ []

-- `l4_payload.len() as u32`.
abbrev pub l4_length : List ℕ → ℕ
l4_length payload = length payload % 2 ^ 32

versions : (n : ℕ) → (n ≡ 4) ⊎ ((n ≡ 6) ⊎ (((n == 4) ≡ false) × ((n == 6) ≡ false)))
versions n = grind arith

module _ (api : ChecksumApi) where
  open api use {Checksum, new, update, finalize}

  abbrev pub checksum_of : List ℕ → Exec (List ℕ)
  checksum_of bytes = value (be16 (finalize (update bytes new)))

  -- An Internet checksum may be fed piecewise, as long as the pieces have even length.
  abbrev pub Piecewise : Type 0
  Piecewise =
      (xs ys : List ℕ) (c : Checksum)
      → length xs % 2 ≡ 0
      → update ys (update xs c) ≡ update (xs ++ ys) c

  -- Zero words do not change it.
  abbrev pub IgnoresZeros : Type 0
  IgnoresZeros = (c : Checksum) → update (0 ∷ 0 ∷ []) c ≡ c

  module _ (piecewise : Piecewise) (zeros : IgnoresZeros) where
    zero_words : (p : ℕ) (c : Checksum) → update (0 ∷ 0 ∷ 0 ∷ p ∷ []) c ≡ update (0 ∷ p ∷ []) c
    zero_words p c =
        sym (piecewise (0 ∷ 0 ∷ []) (0 ∷ p ∷ []) c refl) ∙ ap (update (0 ∷ p ∷ [])) (zeros c)

    fed4 :
        (src dst : IpAddress) (p n : ℕ) (payload : List ℕ)
        → update payload (
            update (be16 (n % 2 ^ 16)) (
              update
                (0 ∷ p ∷ [])
                (update (bytes4 (read_as_v4 dst)) (update (bytes4 (read_as_v4 src)) new))))
          ≡ update (header4 src dst p n ++ payload) new
    fed4 src dst p n payload =
        let s = bytes4 (read_as_v4 src) in
        let d = bytes4 (read_as_v4 dst) in
        let l = be16 (n % 2 ^ 16) in
        rw
          (
            piecewise s d new refl,
            piecewise (s ++ d) (0 ∷ p ∷ []) new refl,
            piecewise (s ++ d ++ 0 ∷ p ∷ []) l new refl,
            piecewise (header4 src dst p n) payload new refl,
          )
          refl

    fed6 :
        (src dst : IpAddress) (p n : ℕ) (payload : List ℕ)
        → update payload (
            update
              (0 ∷ p ∷ [])
              (update (be32 n) (update (bytes16 dst.v6) (update (bytes16 src.v6) new))))
          ≡ update (header6 src dst p n ++ payload) new
    fed6 src dst p n payload =
        let s = bytes16 src.v6 in
        let d = bytes16 dst.v6 in
        rw
          (
            piecewise s d new refl,
            piecewise (s ++ d) (be32 n) new refl,
            sym (zero_words p (update (s ++ d ++ be32 n) new)),
            piecewise (s ++ d ++ be32 n) (0 ∷ 0 ∷ 0 ∷ p ∷ []) new refl,
            piecewise (header6 src dst p n) payload new refl,
          )
          refl

    -- With a checksum that can be fed in pieces of even length and ignores zero words: for
    -- versions 4 and 6 the result is that of the pseudo-header as the RFCs lay it out, with the
    -- payload after it. Any other version panics.
    pub inet_l4_checksum-rfc :
        (version : ℕ) (src dst : IpAddress) (protocol : ℕ) (payload : List ℕ)
        → inet_l4_checksum api version src dst protocol payload ≡ (
            if version == 4
            then checksum_of (header4 src dst protocol (l4_length payload) ++ payload)
            else if version == 6
            then checksum_of (header6 src dst protocol (l4_length payload) ++ payload)
            else panic)
    unfolding inet_l4_checksum checksum_ip_pseudo_header
    inet_l4_checksum-rfc version src dst protocol payload =
        let n = l4_length payload in
        elim (versions version) [
          | inl is4 ↦
              rw is4 (ap (λ csum. value (be16 (finalize csum))) (fed4 src dst protocol n payload))
          | inr (inl is6) ↦
              rw is6 (ap (λ csum. value (be16 (finalize csum))) (fed6 src dst protocol n payload))
          | inr (inr (not4, not6)) ↦ rw (not4, not6) refl
        ]

    both_zero-be16 : (n : ℕ) → n < 2 ^ 16 → both_zero api (be16 n) ≡ (n == 0)
    both_zero-be16 n h = ground arith

    -- With such a checksum that has 16 bits: for versions 4 and 6 validation tells whether the
    -- checksum of that layout is zero. Any other version panics.
    pub validate_inet_l4_checksum-zero :
        (sixteen_bits : (c : Checksum) → finalize c < 2 ^ 16) (version : ℕ) (src dst : IpAddress)
        (protocol : ℕ) (payload : List ℕ)
        → validate_inet_l4_checksum api version src dst protocol payload ≡ (
            if version == 4
            then value (
                finalize (update (header4 src dst protocol (l4_length payload) ++ payload) new)
                == 0)
            else if version == 6
            then value (
                finalize (update (header6 src dst protocol (l4_length payload) ++ payload) new)
                == 0)
            else panic)
    unfolding validate_inet_l4_checksum
    validate_inet_l4_checksum-zero sixteen_bits version src dst protocol payload =
        let n = l4_length payload in
        let e = inet_l4_checksum-rfc version src dst protocol payload in
        elim (versions version) [
          | inl is4 ↦ rw (
            e,
            is4,
            both_zero-be16 _ (sixteen_bits (update (header4 src dst protocol n ++ payload) new)),
          )
          | inr (inl is6) ↦ rw (
            e,
            is6,
            both_zero-be16 _ (sixteen_bits (update (header6 src dst protocol n ++ payload) new)),
          )
          | inr (inr (not4, not6)) ↦ rw (e, not4, not6)
        ]
