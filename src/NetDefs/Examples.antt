-- ===== src/NetDefs/Examples.antt =====
-- Instances of the theorems on addresses and checksums at concrete values, and a ones' complement
-- checksum that has the properties asked of `ip4sum`.
use zpr_utils.Base.{
  ℕ, refl, ap, ap₂, some, map, ◌+◌, ◌-◌, ◌*◌, ◌%◌, ◌≡◌, ◌≢◌, ◌⊎◌, ◌↔◌, List, [], ◌∷◌, ◌++◌, ◌==◌,
  if◌then◌else◌, length, ok, err, arith,
}
use zpr_utils.Base.Exec.{value}
use zpr_utils.NetDefs.Address.{
  Octets4, Octets16, Ipv4Addr, Ipv6Addr, octets4_of, octets16_of, IpAddr, IpAddress, bytes4,
  bytes16, new_from_v4, new_from_std, try_from_vec, to_std,
}
use zpr_utils.NetDefs.Conversions.{IsMapped, to_std-new_from_std, try_from_vec-cases}
use zpr_utils.NetDefs.Scoped.{ScopedIpAddr, SocketAddr, port, scoped_ip, set_scoped_ip}
use zpr_utils.NetDefs.Display.{Display, HasNoPercent, scoped_fmt-injective}
use zpr_utils.NetDefs.Socket.{scoped_ip-set_scoped_ip}
use zpr_utils.NetDefs.Packet.{ChecksumApi, inet_l4_checksum, validate_inet_l4_checksum}
use zpr_utils.NetDefs.Checksums.{
  header6, checksum_of, Piecewise, IgnoresZeros, inet_l4_checksum-rfc,
  validate_inet_l4_checksum-zero,
}

abbrev localhost : Octets4
localhost = record { o0 = 127; o1 = 0; o2 = 0; o3 = 1 }

-- fe80::7
abbrev link_local : Octets16
link_local = record {
  b0 = 0xfe;
  b1 = 0x80;
  b2 = 0;
  b3 = 0;
  b4 = 0;
  b5 = 0;
  b6 = 0;
  b7 = 0;
  b8 = 0;
  b9 = 0;
  b10 = 0;
  b11 = 0;
  b12 = 0;
  b13 = 0;
  b14 = 0;
  b15 = 7;
}

-- ::ffff:127.0.0.1
abbrev mapped : IpAddress
mapped = record {
  v6 = record {
    b0 = 0;
    b1 = 0;
    b2 = 0;
    b3 = 0;
    b4 = 0;
    b5 = 0;
    b6 = 0;
    b7 = 0;
    b8 = 0;
    b9 = 0;
    b10 = 0xff;
    b11 = 0xff;
    b12 = 127;
    b13 = 0;
    b14 = 0;
    b15 = 1;
  };
}

abbrev std_mapped : IpAddr
std_mapped = IpAddr.v6 (record { octets = mapped.v6 })

to_std-new_from_std_example :
    (to_std (new_from_std std_mapped) ≡ std_mapped) ↔ (¬ IsMapped std_mapped)
to_std-new_from_std_example = to_std-new_from_std std_mapped

abbrev three : List ℕ
three = 1 ∷ 2 ∷ 3 ∷ []

try_from_vec-cases_example :
    ((a : Octets4) × (try_from_vec three ≡ value (ok (new_from_v4 a))) × (bytes4 a ≡ three))
    ⊎ (((a : Octets16) × (try_from_vec three ≡ value (ok (record { v6 = a })))
          × (bytes16 a ≡ three))
        ⊎ ((length three ≢ 4) × (length three ≢ 16) × (try_from_vec three ≡ value (err three))))
try_from_vec-cases_example = try_from_vec-cases three

abbrev socket : SocketAddr
socket =
    SocketAddr.v6
      (record { ip = record { octets = link_local }; port = 53; flowinfo = 9; scope_id = 2 })

abbrev scoped : ScopedIpAddr
scoped = ScopedIpAddr.v6 (record { ip = record { octets = link_local }; scope_id = 4 })

scoped_ip-set_scoped_ip_example :
    (s' : SocketAddr) × (set_scoped_ip scoped socket ≡ value s')
    × (scoped_ip s' ≡ scoped)
    × (port s' ≡ 53)
scoped_ip-set_scoped_ip_example = scoped_ip-set_scoped_ip scoped socket

-- The sum of the 16-bit words, kept whole and folded at the end.
abbrev sum16 : List ℕ → ℕ
sum16 [] = 0
sum16 (a ∷ []) = a * 256
sum16 (a ∷ b ∷ rest) = a * 256 + b + sum16 rest

abbrev fold16 : ℕ → ℕ
fold16 n = if n == 0 then 0 else 1 + (n - 1) % 65535

abbrev ones_complement : ChecksumApi
ones_complement = record {
  Checksum = ℕ;
  new = 0;
  update = λ bytes c. c + sum16 bytes;
  finalize = λ c. 65535 - fold16 c;
}

sum16-++ : (xs ys : List ℕ) → length xs % 2 ≡ 0 → sum16 (xs ++ ys) ≡ sum16 xs + sum16 ys
sum16-++ [] ys even = omega arith
sum16-++ (a ∷ []) ys even = absurd (omega arith)
sum16-++ (a ∷ b ∷ rest) ys even = omega (arith, sum16-++ rest ys (omega arith))

ones_complement-Piecewise : Piecewise ones_complement
ones_complement-Piecewise xs ys c even = omega (arith, sum16-++ xs ys even)

ones_complement-IgnoresZeros : IgnoresZeros ones_complement
ones_complement-IgnoresZeros c = omega arith

inet_l4_checksum-rfc_example :
    inet_l4_checksum ones_complement 6 mapped mapped 17 three
    ≡ checksum_of ones_complement (header6 mapped mapped 17 3 ++ three)
inet_l4_checksum-rfc_example =
    inet_l4_checksum-rfc ones_complement ones_complement-Piecewise ones_complement-IgnoresZeros 6
      mapped mapped 17 three

validate_inet_l4_checksum-zero_example :
    validate_inet_l4_checksum ones_complement 6 mapped mapped 17 three
    ≡ value (
        ones_complement.finalize (ones_complement.update (header6 mapped mapped 17 3 ++ three) 0)
        == 0)
validate_inet_l4_checksum-zero_example =
    validate_inet_l4_checksum-zero ones_complement ones_complement-Piecewise
      ones_complement-IgnoresZeros (λ c. omega arith) 6 mapped mapped 17 three

-- Texts that put a mark for the family before the bytes, all of them past the percent sign.
shift : List ℕ → List ℕ
shift bytes = map (λ b. b + 38) bytes

shift-injective : (xs ys : List ℕ) → shift xs ≡ shift ys → xs ≡ ys
unfolding shift
shift-injective [] [] e = refl
shift-injective [] (y ∷ ys) e = cc
shift-injective (x ∷ xs) [] e = cc
shift-injective (x ∷ xs) (y ∷ ys) e =
    let heads : x + 38 ≡ y + 38 = cc in
    let tails : shift xs ≡ shift ys = cc in
    let same : x ≡ y = omega arith in
    ap₂ (λ (h : ℕ) (t : List ℕ). h ∷ t) same (shift-injective xs ys tails)

shift-plain : (xs : List ℕ) → HasNoPercent (shift xs)
unfolding shift
shift-plain [] = tt
shift-plain (x ∷ xs) = ((λ e. absurd (omega (arith, e))), shift-plain xs)

octets4-injective : (a b : Ipv4Addr) → bytes4 a.octets ≡ bytes4 b.octets → a ≡ b
octets4-injective a b e =
    let same : some a.octets ≡ some b.octets = ap octets4_of e in
    let octets : a.octets ≡ b.octets = cc in ap (λ (o : Octets4). record { octets = o }) octets

octets16-injective : (a b : Ipv6Addr) → bytes16 a.octets ≡ bytes16 b.octets → a ≡ b
octets16-injective a b e =
    let same : some a.octets ≡ some b.octets = ap octets16_of e in
    let octets : a.octets ≡ b.octets = cc in ap (λ (o : Octets16). record { octets = o }) octets

unfoldable shifted : Display
unfolding shift
shifted = record {
  fmt_ipv4 = λ a. 0 ∷ shift (bytes4 a.octets);
  fmt_ipv6 = λ a. 1 ∷ shift (bytes16 a.octets);
  fmt_u32 = λ n. n ∷ [];
  ipv4_injective = λ a b e. octets4-injective a b (shift-injective _ _ cc);
  ipv6_injective = λ a b e. octets16-injective a b (shift-injective _ _ cc);
  u32_injective = λ m n e. cc;
  families_differ = λ a b e. cc;
  ipv4_plain = λ a. ((λ e. absurd (omega (arith, e))), shift-plain (bytes4 a.octets));
  ipv6_plain = λ a. ((λ e. absurd (omega (arith, e))), shift-plain (bytes16 a.octets));
}

abbrev scoped_address : ScopedIpAddr
scoped_address = ScopedIpAddr.v6 (record { ip = record { octets = link_local }; scope_id = 3 })

scoped_fmt-injective_example : scoped_address ≡ scoped_address
scoped_fmt-injective_example = scoped_fmt-injective shifted scoped_address scoped_address refl
