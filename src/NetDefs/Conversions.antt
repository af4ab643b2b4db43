-- ===== src/NetDefs/Conversions.antt =====
-- The conversions of `IpAddress` are inverse to one another, but for the IPv4-mapped addresses.
use zpr_utils.Base.{
  ℕ, ◌≡◌, ◌≢◌, ◌⊎◌, ◌↔◌, inl, inr, refl, sym, ap, true, some, List, [], ◌∷◌, length, ok, err, arith,
}
use zpr_utils.Base.Exec.{value}
use zpr_utils.NetDefs.Address.{
  Octets4, Octets16, Ipv4Addr, IpAddr, v4, v6, IpAddress, bytes4, bytes16, new_from_v4, read_as_v4,
  is_v4, new_from_std, octets4_of, octets16_of, try_from_vec, try_to_ipv4, to_std,
}

-- The address made from an IPv4 address is recognised as IPv4, and the IPv4 address is read back.
pub read_as_v4-new_from_v4 :
    (a : Octets4) → (is_v4 (new_from_v4 a) ≡ true) × (read_as_v4 (new_from_v4 a) ≡ a)
unfolding is_v4 new_from_v4 read_as_v4
read_as_v4-new_from_v4 a = (refl, refl)

-- An address that is recognised as IPv4 is the address of the IPv4 address that is read from it.
pub new_from_v4-read_as_v4 : (x : IpAddress) → is_v4 x ≡ true → new_from_v4 (read_as_v4 x) ≡ x
unfolding is_v4 new_from_v4 read_as_v4
new_from_v4-read_as_v4 x h = ground arith

-- Every `IpAddress` survives the way to `IpAddr` and back.
pub new_from_std-to_std : (x : IpAddress) → new_from_std (to_std x) ≡ x
unfolding new_from_std to_std
new_from_std-to_std x = ground arith

-- An IPv6 address in the IPv4-mapped range, ::ffff:0:0/96: ten octets 0, then two octets 255.
abbrev pub IsMapped : IpAddr → Type 0
IsMapped (v4 a) = ⊥
IsMapped (v6 a) =
    (o : Octets4) × (bytes16 a.octets
      ≡ 0 ∷ 0 ∷ 0 ∷ 0 ∷ 0 ∷ 0 ∷ 0 ∷ 0 ∷ 0 ∷ 0 ∷ 255 ∷ 255 ∷ bytes4 o)

is_v4-bytes16 :
    (x : IpAddress)
    → (is_v4 x ≡ true) ↔ (
        (o : Octets4) × (bytes16 x.v6
          ≡ 0 ∷ 0 ∷ 0 ∷ 0 ∷ 0 ∷ 0 ∷ 0 ∷ 0 ∷ 0 ∷ 0 ∷ 255 ∷ 255 ∷ bytes4 o))
unfolding is_v4 new_from_v4 read_as_v4
is_v4-bytes16 x = (
  λ h. (read_as_v4 x, sym (ap (λ (t : IpAddress). bytes16 t.v6) (new_from_v4-read_as_v4 x h))),
  λ m. let e = m.1 in ground arith,
)

-- An `IpAddr` survives the way to `IpAddress` and back exactly if it is not an IPv6 address in the
-- IPv4-mapped range, ::ffff:0:0/96.
pub to_std-new_from_std : (a : IpAddr) → (to_std (new_from_std a) ≡ a) ↔ (¬ IsMapped a)
unfolding new_from_std to_std is_v4
to_std-new_from_std (v4 a) = (λ _ h. h, λ _. refl)
to_std-new_from_std (v6 a) =
    let (there, back) = is_v4-bytes16 (record { v6 = a.octets }) in
    (λ e m. unmapped e (back m), λ no. kept (λ h. no (there h)))
  where
    unmapped : to_std (record { v6 = a.octets }) ≡ v6 a → is_v4 (record { v6 = a.octets }) ≢ true
    unmapped e h = ground arith

    kept : is_v4 (record { v6 = a.octets }) ≢ true → to_std (record { v6 = a.octets }) ≡ v6 a
    kept h = ground arith

octets4_of-length :
    (xs : List ℕ) → length xs ≡ 4 → (a : Octets4) × (octets4_of xs ≡ some a) × (bytes4 a ≡ xs)
octets4_of-length [] h = absurd (omega arith)
octets4_of-length (x0 ∷ []) h = absurd (omega arith)
octets4_of-length (x0 ∷ x1 ∷ []) h = absurd (omega arith)
octets4_of-length (x0 ∷ x1 ∷ x2 ∷ []) h = absurd (omega arith)
octets4_of-length (x0 ∷ x1 ∷ x2 ∷ x3 ∷ []) h =
    (record { o0 = x0; o1 = x1; o2 = x2; o3 = x3 }, refl, refl)
octets4_of-length (x0 ∷ x1 ∷ x2 ∷ x3 ∷ y ∷ ys) h = absurd (omega arith)

octets16_of-length :
    (xs : List ℕ) → length xs ≡ 16 → (a : Octets16) × (octets16_of xs ≡ some a) × (bytes16 a ≡ xs)
octets16_of-length [] h = absurd (omega arith)
octets16_of-length (x0 ∷ []) h = absurd (omega arith)
octets16_of-length (x0 ∷ x1 ∷ []) h = absurd (omega arith)
octets16_of-length (x0 ∷ x1 ∷ x2 ∷ []) h = absurd (omega arith)
octets16_of-length (x0 ∷ x1 ∷ x2 ∷ x3 ∷ []) h = absurd (omega arith)
octets16_of-length (x0 ∷ x1 ∷ x2 ∷ x3 ∷ x4 ∷ []) h = absurd (omega arith)
octets16_of-length (x0 ∷ x1 ∷ x2 ∷ x3 ∷ x4 ∷ x5 ∷ []) h = absurd (omega arith)
octets16_of-length (x0 ∷ x1 ∷ x2 ∷ x3 ∷ x4 ∷ x5 ∷ x6 ∷ []) h = absurd (omega arith)
octets16_of-length (x0 ∷ x1 ∷ x2 ∷ x3 ∷ x4 ∷ x5 ∷ x6 ∷ x7 ∷ []) h = absurd (omega arith)
octets16_of-length (x0 ∷ x1 ∷ x2 ∷ x3 ∷ x4 ∷ x5 ∷ x6 ∷ x7 ∷ x8 ∷ []) h = absurd (omega arith)
octets16_of-length (x0 ∷ x1 ∷ x2 ∷ x3 ∷ x4 ∷ x5 ∷ x6 ∷ x7 ∷ x8 ∷ x9 ∷ []) h = absurd (omega arith)
octets16_of-length (x0 ∷ x1 ∷ x2 ∷ x3 ∷ x4 ∷ x5 ∷ x6 ∷ x7 ∷ x8 ∷ x9 ∷ x10 ∷ []) h =
    absurd (omega arith)
octets16_of-length (x0 ∷ x1 ∷ x2 ∷ x3 ∷ x4 ∷ x5 ∷ x6 ∷ x7 ∷ x8 ∷ x9 ∷ x10 ∷ x11 ∷ []) h =
    absurd (omega arith)
octets16_of-length (x0 ∷ x1 ∷ x2 ∷ x3 ∷ x4 ∷ x5 ∷ x6 ∷ x7 ∷ x8 ∷ x9 ∷ x10 ∷ x11 ∷ x12 ∷ []) h =
    absurd (omega arith)
octets16_of-length (x0 ∷ x1 ∷ x2 ∷ x3 ∷ x4 ∷ x5 ∷ x6 ∷ x7 ∷ x8 ∷ x9 ∷ x10 ∷ x11 ∷ x12 ∷ x13 ∷ [])
      h =
    absurd (omega arith)
octets16_of-length
      (x0 ∷ x1 ∷ x2 ∷ x3 ∷ x4 ∷ x5 ∷ x6 ∷ x7 ∷ x8 ∷ x9 ∷ x10 ∷ x11 ∷ x12 ∷ x13 ∷ x14 ∷ []) h =
    absurd (omega arith)
octets16_of-length
      (x0 ∷ x1 ∷ x2 ∷ x3 ∷ x4 ∷ x5 ∷ x6 ∷ x7 ∷ x8 ∷ x9 ∷ x10 ∷ x11 ∷ x12 ∷ x13 ∷ x14 ∷ x15 ∷ []) h =
    (
      record {
        b0 = x0;
        b1 = x1;
        b2 = x2;
        b3 = x3;
        b4 = x4;
        b5 = x5;
        b6 = x6;
        b7 = x7;
        b8 = x8;
        b9 = x9;
        b10 = x10;
        b11 = x11;
        b12 = x12;
        b13 = x13;
        b14 = x14;
        b15 = x15;
      },
      refl,
      refl,
    )
octets16_of-length
      (x0 ∷ x1 ∷ x2 ∷ x3 ∷ x4 ∷ x5 ∷ x6 ∷ x7 ∷ x8 ∷ x9 ∷ x10 ∷ x11 ∷ x12 ∷ x13 ∷ x14 ∷ x15 ∷ y ∷ ys)
      h =
    absurd (omega arith)

-- `TryFrom<Vec<u8>>` never panics: four octets make the IPv4 address that they spell, sixteen the
-- IPv6 address, and any other number of octets is handed back as the error.
pub try_from_vec-cases :
    (xs : List ℕ)
    → ((a : Octets4) × (try_from_vec xs ≡ value (ok (new_from_v4 a))) × (bytes4 a ≡ xs))
      ⊎ (((a : Octets16) × (try_from_vec xs ≡ value (ok (record { v6 = a }))) × (bytes16 a ≡ xs))
          ⊎ ((length xs ≢ 4) × (length xs ≢ 16) × (try_from_vec xs ≡ value (err xs))))
unfolding try_from_vec
try_from_vec-cases xs = elim (cases (length xs)) [
  | inl four ↦ let (a, e, b) = octets4_of-length xs four in inl (a, rw (four, e), b)
  | inr (inl sixteen) ↦
      let (a, e, b) = octets16_of-length xs sixteen in inr (inl (a, rw (sixteen, e), b))
  | inr (inr (not4, not16)) ↦ inr (inr (not4, not16, ground arith))
]
  where
    cases : (n : ℕ) → (n ≡ 4) ⊎ ((n ≡ 16) ⊎ ((n ≢ 4) × (n ≢ 16)))
    cases n = grind arith

-- An address converts to an IPv4 address exactly if it is the one made from that IPv4 address.
pub try_to_ipv4_iff :
    (x : IpAddress) (a : Ipv4Addr) → (try_to_ipv4 x ≡ ok a) ↔ (new_from_v4 a.octets ≡ x)
unfolding try_to_ipv4 new_from_v4
try_to_ipv4_iff x a = (λ e. ground arith, λ e. ground arith)
