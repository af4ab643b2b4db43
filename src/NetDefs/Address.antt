-- ===== src/NetDefs/Address.antt =====
-- zpr-utils/src/net_defs.rs: `IpAddress`, the flat representation of an IPv4 or IPv6 address, and
-- its conversions. The std types `Ipv4Addr` and `Ipv6Addr` are their octets.
use zpr_utils.Base.{
  ℕ, bit_and, Bool, ◌&&◌, Option, none, some, List, [], ◌∷◌, ◌==◌, if◌then◌else◌, Result, ok, err,
  length,
}
use mathlib.Core.Option
use zpr_utils.Base.Exec.{Exec, value, panic}

-- `[u8; 4]`.
pub record Octets4 : Type 0 where
  pub o0 : ℕ
  pub o1 : ℕ
  pub o2 : ℕ
  pub o3 : ℕ

-- `[u8; 16]`.
pub record Octets16 : Type 0 where
  pub b0 : ℕ
  pub b1 : ℕ
  pub b2 : ℕ
  pub b3 : ℕ
  pub b4 : ℕ
  pub b5 : ℕ
  pub b6 : ℕ
  pub b7 : ℕ
  pub b8 : ℕ
  pub b9 : ℕ
  pub b10 : ℕ
  pub b11 : ℕ
  pub b12 : ℕ
  pub b13 : ℕ
  pub b14 : ℕ
  pub b15 : ℕ

pub record Ipv4Addr : Type 0 where
  pub octets : Octets4

pub record Ipv6Addr : Type 0 where
  pub octets : Octets16

pub data IpAddr : Type 0 where
  v4 : Ipv4Addr → IpAddr
  v6 : Ipv6Addr → IpAddr

pub record IpAddress : Type 0 where
  pub v6 : Octets16

abbrev pub bytes4 : Octets4 → List ℕ
bytes4 a = a.o0 ∷ a.o1 ∷ a.o2 ∷ a.o3 ∷ []

abbrev pub bytes16 : Octets16 → List ℕ
bytes16 a =
    a.b0 ∷ a.b1 ∷ a.b2 ∷ a.b3 ∷ a.b4 ∷ a.b5 ∷ a.b6 ∷ a.b7 ∷ a.b8 ∷ a.b9 ∷ a.b10 ∷ a.b11 ∷ a.b12
    ∷ a.b13 ∷ a.b14 ∷ a.b15 ∷ []

abbrev pub unspecified : IpAddress
unspecified = record {
  v6 = record {
    b0 = 0;
    b1 = 0;
    b2 = 0;
    b3 = 0;
    b4 = 0;
    b5 = 0;
    b6 = 0;
    b7 = 0;
    b8 = 0;
    b9 = 0;
    b10 = 0;
    b11 = 0;
    b12 = 0;
    b13 = 0;
    b14 = 0;
    b15 = 0;
  };
}

unfoldable pub new_from_v4 : Octets4 → IpAddress
new_from_v4 a = record {
  v6 = record {
    b0 = 0;
    b1 = 0;
    b2 = 0;
    b3 = 0;
    b4 = 0;
    b5 = 0;
    b6 = 0;
    b7 = 0;
    b8 = 0;
    b9 = 0;
    b10 = 0xff;
    b11 = 0xff;
    b12 = a.o0;
    b13 = a.o1;
    b14 = a.o2;
    b15 = a.o3;
  };
}

unfoldable pub read_as_v4 : IpAddress → Octets4
read_as_v4 a = record { o0 = a.v6.b12; o1 = a.v6.b13; o2 = a.v6.b14; o3 = a.v6.b15 }

unfoldable pub is_v4 : IpAddress → Bool
is_v4 a =
    a.v6.b0 == 0
    && a.v6.b1 == 0
    && a.v6.b2 == 0
    && a.v6.b3 == 0
    && a.v6.b4 == 0
    && a.v6.b5 == 0
    && a.v6.b6 == 0
    && a.v6.b7 == 0
    && a.v6.b8 == 0
    && a.v6.b9 == 0
    && a.v6.b10 == 0xff
    && a.v6.b11 == 0xff

unfoldable pub new_from_std_v4 : Ipv4Addr → IpAddress
unfolding new_from_v4
new_from_std_v4 addr = new_from_v4 addr.octets

unfoldable pub new_from_std_v6 : Ipv6Addr → IpAddress
new_from_std_v6 addr = record { v6 = addr.octets }

unfoldable pub new_from_std : IpAddr → IpAddress
unfolding new_from_std_v4 new_from_std_v6
new_from_std (v4 a) = new_from_std_v4 a
new_from_std (v6 a) = new_from_std_v6 a

unfoldable pub is_v6_unicast_link_local : IpAddress → Bool
is_v6_unicast_link_local a = a.v6.b0 == 0xfe && bit_and a.v6.b1 0xC0 == 0x80

-- `<[u8; 4]>::try_from(slice)` and its fellow.
abbrev pub octets4_of : List ℕ → Option Octets4
octets4_of (a ∷ b ∷ c ∷ d ∷ []) = some (record { o0 = a; o1 = b; o2 = c; o3 = d })
octets4_of _ = none

abbrev pub octets16_of : List ℕ → Option Octets16
octets16_of
      (x0 ∷ x1 ∷ x2 ∷ x3 ∷ x4 ∷ x5 ∷ x6 ∷ x7 ∷ x8 ∷ x9 ∷ x10 ∷ x11 ∷ x12 ∷ x13 ∷ x14 ∷ x15 ∷ []) =
    some (record {
      b0 = x0;
      b1 = x1;
      b2 = x2;
      b3 = x3;
      b4 = x4;
      b5 = x5;
      b6 = x6;
      b7 = x7;
      b8 = x8;
      b9 = x9;
      b10 = x10;
      b11 = x11;
      b12 = x12;
      b13 = x13;
      b14 = x14;
      b15 = x15;
    })
octets16_of _ = none

-- `expect`.
abbrev pub expect : Option IpAddress → Exec (Result (List ℕ) IpAddress)
expect none = panic
expect (some a) = value (ok a)

-- `TryFrom<Vec<u8>>`: the conversions to arrays are expected not to fail.
unfoldable pub try_from_vec : List ℕ → Exec (Result (List ℕ) IpAddress)
unfolding new_from_v4
try_from_vec octets =
    if length octets == 4
    then expect (Option.map new_from_v4 (octets4_of octets))
    else if length octets == 16
    then expect (Option.map (λ a. record { v6 = a }) (octets16_of octets))
    else value (err octets)

-- `TryFrom<IpAddress> for Ipv4Addr`.
unfoldable pub try_to_ipv4 : IpAddress → Result (Unit {0}) Ipv4Addr
unfolding is_v4 read_as_v4
try_to_ipv4 addr = if is_v4 addr then ok (record { octets = read_as_v4 addr }) else err tt

-- `From<IpAddress> for Ipv6Addr` and `for IpAddr`.
unfoldable pub to_ipv6 : IpAddress → Ipv6Addr
to_ipv6 addr = record { octets = addr.v6 }

unfoldable pub to_std : IpAddress → IpAddr
unfolding is_v4 read_as_v4
to_std addr =
    if is_v4 addr
    then v4 (record { octets = read_as_v4 addr })
    else v6 (record { octets = addr.v6 })
