-- ===== src/NetDefs/Packet.antt =====
-- zpr-utils/src/net_defs.rs: IP versions and protocol numbers, and the checksum of an L4 payload.
-- `ip4sum::Checksum` and the numbers of `zpr::vsapi_types` are parameters.
use zpr_utils.Base.{
  ℕ, ◌/◌, ◌%◌, ◌^◌, Bool, false, ◌&&◌, List, [], ◌∷◌, ◌==◌, if◌then◌else◌, Result, ok, err, length,
}
use zpr_utils.Base.Exec.{Exec, value, panic, ◌>>=◌, index}
use zpr_utils.NetDefs.Address.{IpAddress, bytes4, bytes16, read_as_v4}

abbrev pub ethertype_ip : ℕ
ethertype_ip = 0x0800

abbrev pub ethertype_ipv6 : ℕ
ethertype_ipv6 = 0x86dd

-- `pkt[0] >> 4`.
unfoldable pub ip_version : List ℕ → Exec ℕ
ip_version pkt = do first ← index pkt 0; value (first / 2 ^ 4)

unfoldable pub ip_ethertype : ℕ → ℕ
ip_ethertype version =
    if version == 4 then ethertype_ip else if version == 6 then ethertype_ipv6 else 0

-- The module `ip_number`, whose names `vsapi_ip_number` has too.
pub record IpNumbers : Type 0 where
  pub hopopt : ℕ
  pub icmp : ℕ
  pub ipinip : ℕ
  pub tcp : ℕ
  pub udp : ℕ
  pub ipv6_route : ℕ
  pub ipv6_frag : ℕ
  pub ah : ℕ
  pub ipv6_icmp : ℕ
  pub ipv6_opts : ℕ

abbrev pub ip_number : IpNumbers
ip_number = record {
  hopopt = 0;
  icmp = 1;
  ipinip = 4;
  tcp = 6;
  udp = 17;
  ipv6_route = 43;
  ipv6_frag = 44;
  ah = 51;
  ipv6_icmp = 58;
  ipv6_opts = 60;
}

-- The error is the text "Unknown protocol".
pub data UnknownProtocol : Type 0 where
  unknown_protocol : UnknownProtocol

unfoldable pub vsapi_ip_to_defs_ip : IpNumbers → ℕ → Result UnknownProtocol ℕ
vsapi_ip_to_defs_ip vsapi p =
    if p == vsapi.hopopt
    then ok ip_number.hopopt
    else if p == vsapi.icmp
    then ok ip_number.icmp
    else if p == vsapi.ipinip
    then ok ip_number.ipinip
    else if p == vsapi.tcp
    then ok ip_number.tcp
    else if p == vsapi.udp
    then ok ip_number.udp
    else if p == vsapi.ipv6_route
    then ok ip_number.ipv6_route
    else if p == vsapi.ipv6_frag
    then ok ip_number.ipv6_frag
    else if p == vsapi.ah
    then ok ip_number.ah
    else if p == vsapi.ipv6_icmp
    then ok ip_number.ipv6_icmp
    else if p == vsapi.ipv6_opts
    then ok ip_number.ipv6_opts
    else err unknown_protocol

-- `ip4sum::Checksum`: a running sum that is fed with bytes, and its value at the end.
pub record ChecksumApi : Type 1 where
  pub Checksum : Type 0
  pub new : Checksum
  pub update : List ℕ → Checksum → Checksum
  pub finalize : Checksum → ℕ

-- `to_be_bytes` of a u16 and of a u32.
abbrev pub be16 : ℕ → List ℕ
be16 n = n / 2 ^ 8 % 2 ^ 8 ∷ n % 2 ^ 8 ∷ []

abbrev pub be32 : ℕ → List ℕ
be32 n = n / 2 ^ 24 % 2 ^ 8 ∷ n / 2 ^ 16 % 2 ^ 8 ∷ n / 2 ^ 8 % 2 ^ 8 ∷ n % 2 ^ 8 ∷ []

module _ (api : ChecksumApi) where
  open api use {Checksum, new, update, finalize}

  unfoldable pub checksum_ip_pseudo_header :
      Checksum → ℕ → IpAddress → IpAddress → ℕ → ℕ → Exec Checksum
  unfolding read_as_v4
  checksum_ip_pseudo_header csum version src dst protocol l4_length =
      if version == 4
      then value (
          update (be16 (l4_length % 2 ^ 16)) (
            update (0 ∷ protocol ∷ [])
              (update (bytes4 (read_as_v4 dst)) (update (bytes4 (read_as_v4 src)) csum))))
      else if version == 6
      then value (
          update (0 ∷ protocol ∷ [])
            (update (be32 l4_length) (update (bytes16 dst.v6) (update (bytes16 src.v6) csum))))
      else panic

  unfoldable pub inet_l4_checksum : ℕ → IpAddress → IpAddress → ℕ → List ℕ → Exec (List ℕ)
  unfolding checksum_ip_pseudo_header
  inet_l4_checksum version src dst protocol payload = do
    csum ← checksum_ip_pseudo_header new version src dst protocol (length payload % 2 ^ 32)
    value (be16 (finalize (update payload csum)))

  abbrev pub both_zero : List ℕ → Bool
  both_zero (a ∷ b ∷ []) = a == 0 && b == 0
  both_zero _ = false

  unfoldable pub validate_inet_l4_checksum : ℕ → IpAddress → IpAddress → ℕ → List ℕ → Exec Bool
  unfolding inet_l4_checksum
  validate_inet_l4_checksum version src dst protocol payload = do
    checksum ← inet_l4_checksum version src dst protocol payload
    value (both_zero checksum)
