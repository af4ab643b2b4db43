-- ===== src/NetDefs/Scoped.antt =====
-- zpr-utils/src/net_defs.rs: addresses with a scope, and `SocketAddrExt` on std's `SocketAddr`.
use zpr_utils.Base.{ℕ}
use zpr_utils.Base.Exec.{Exec, value, panic}
use zpr_utils.NetDefs.Address.{Ipv4Addr, Ipv6Addr, IpAddr}

pub record ScopedIpv6Addr : Type 0 where
  pub ip : Ipv6Addr
  pub scope_id : ℕ

pub data ScopedIpAddr : Type 0 where
  v4 : Ipv4Addr → ScopedIpAddr
  v6 : ScopedIpv6Addr → ScopedIpAddr

pub set_ip : Ipv6Addr → ScopedIpv6Addr → ScopedIpv6Addr
set_ip new_ip a = record a { ip = new_ip }

pub set_scope_id : ℕ → ScopedIpv6Addr → ScopedIpv6Addr
set_scope_id new_scope_id a = record a { scope_id = new_scope_id }

abbrev pub unscoped : Ipv6Addr → ScopedIpv6Addr
unscoped ip = record { ip = ip; scope_id = 0 }

-- `ScopedIpAddr::ip`, and the conversion back, `From<IpAddr>`.
unfoldable pub ip : ScopedIpAddr → IpAddr
ip (v4 a) = IpAddr.v4 a
ip (v6 a) = IpAddr.v6 a.ip

unfoldable pub scoped_from : IpAddr → ScopedIpAddr
scoped_from (IpAddr.v4 a) = v4 a
scoped_from (IpAddr.v6 a) = v6 (unscoped a)

-- std's `SocketAddr`, and its `set_ip`: an address of the other family takes over the port alone.
pub record SocketAddrV4 : Type 0 where
  pub ip : Ipv4Addr
  pub port : ℕ

pub record SocketAddrV6 : Type 0 where
  pub ip : Ipv6Addr
  pub port : ℕ
  pub flowinfo : ℕ
  pub scope_id : ℕ

pub data SocketAddr : Type 0 where
  v4 : SocketAddrV4 → SocketAddr
  v6 : SocketAddrV6 → SocketAddr

abbrev pub port : SocketAddr → ℕ
port (SocketAddr.v4 a) = a.port
port (SocketAddr.v6 a) = a.port

abbrev pub flowinfo : SocketAddr → ℕ
flowinfo (SocketAddr.v4 a) = 0
flowinfo (SocketAddr.v6 a) = a.flowinfo

abbrev pub socket_set_ip : SocketAddr → IpAddr → SocketAddr
socket_set_ip (SocketAddr.v4 s) (IpAddr.v4 a) = SocketAddr.v4 (record s { ip = a })
socket_set_ip (SocketAddr.v6 s) (IpAddr.v4 a) = SocketAddr.v4 (record { ip = a; port = s.port })
socket_set_ip (SocketAddr.v4 s) (IpAddr.v6 a) =
    SocketAddr.v6 (record { ip = a; port = s.port; flowinfo = 0; scope_id = 0 })
socket_set_ip (SocketAddr.v6 s) (IpAddr.v6 a) = SocketAddr.v6 (record s { ip = a })

unfoldable pub scoped_ip : SocketAddr → ScopedIpAddr
scoped_ip (SocketAddr.v4 s) = ScopedIpAddr.v4 s.ip
scoped_ip (SocketAddr.v6 s) = ScopedIpAddr.v6 (record { ip = s.ip; scope_id = s.scope_id })

abbrev pub with_scope_id : SocketAddr → ℕ → Exec SocketAddr
with_scope_id (SocketAddr.v4 s) scope = panic
with_scope_id (SocketAddr.v6 s) scope = value (SocketAddr.v6 (record s { scope_id = scope }))

unfoldable pub set_scoped_ip : ScopedIpAddr → SocketAddr → Exec SocketAddr
set_scoped_ip (ScopedIpAddr.v4 a) s = value (socket_set_ip s (IpAddr.v4 a))
set_scoped_ip (ScopedIpAddr.v6 a) s = with_scope_id (socket_set_ip s (IpAddr.v6 a.ip)) a.scope_id
