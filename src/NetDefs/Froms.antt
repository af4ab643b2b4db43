-- ===== src/NetDefs/Froms.antt =====
-- zpr-utils/src/net_defs.rs: the `From` implementations of `IpAddress`, `IpAddr` and `ScopedIpAddr`;
-- those that take a reference do the same as those that take a value.
use zpr_utils.Base.{ℕ, ◌≡◌, refl}
use zpr_utils.NetDefs.Address.{
  Octets4, Octets16, Ipv4Addr, Ipv6Addr, IpAddr, IpAddress, new_from_v4, new_from_std_v4,
  new_from_std_v6, new_from_std, to_std,
}
use zpr_utils.NetDefs.Scoped.{ScopedIpv6Addr, ScopedIpAddr, v4, v6, unscoped, ip, scoped_from}

unfoldable pub from_ipv4 : Ipv4Addr → IpAddress
unfolding new_from_std_v4
from_ipv4 addr = new_from_std_v4 addr

unfoldable pub from_octets4 : Octets4 → IpAddress
unfolding new_from_v4
from_octets4 addr = new_from_v4 addr

unfoldable pub from_ipv6 : Ipv6Addr → IpAddress
unfolding new_from_std_v6
from_ipv6 addr = new_from_std_v6 addr

unfoldable pub from_octets16 : Octets16 → IpAddress
from_octets16 addr = record { v6 = addr }

unfoldable pub from_std : IpAddr → IpAddress
unfolding new_from_std
from_std addr = new_from_std addr

unfoldable pub to_std_ref : IpAddress → IpAddr
unfolding to_std
to_std_ref addr = to_std addr

unfoldable pub scoped_from_ipv4 : Ipv4Addr → ScopedIpAddr
scoped_from_ipv4 addr = v4 addr

unfoldable pub scoped_from_scoped_ipv6 : ScopedIpv6Addr → ScopedIpAddr
scoped_from_scoped_ipv6 addr = v6 addr

unfoldable pub scoped_from_ipv6 : Ipv6Addr → ScopedIpAddr
scoped_from_ipv6 addr = v6 (unscoped addr)

-- `ScopedIpv6Addr::new`.
unfoldable pub new : Ipv6Addr → ℕ → ScopedIpv6Addr
new ip scope_id = record { ip = ip; scope_id = scope_id }

-- An address with a scope that was made of an address has that address again.
pub ip-scoped_from : (addr : IpAddr) → ip (scoped_from addr) ≡ addr
unfolding ip scoped_from
ip-scoped_from (IpAddr.v4 a) = refl
ip-scoped_from (IpAddr.v6 a) = refl
