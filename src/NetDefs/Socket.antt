-- ===== src/NetDefs/Socket.antt =====
-- Setting and reading the scoped address of a socket address.
use zpr_utils.Base.{◌≡◌, refl}
use zpr_utils.Base.Exec.{value}
use zpr_utils.NetDefs.Address.{IpAddr}
use zpr_utils.NetDefs.Scoped.{
  ScopedIpAddr, SocketAddr, ip, scoped_from, port, scoped_ip, set_scoped_ip,
}

-- Setting a scoped address never panics; it can be read back, scope included, and the port stays.
pub scoped_ip-set_scoped_ip :
    (a : ScopedIpAddr) (s : SocketAddr)
    → (s' : SocketAddr) × (set_scoped_ip a s ≡ value s') × (scoped_ip s' ≡ a) × (port s' ≡ port s)
unfolding scoped_ip set_scoped_ip
scoped_ip-set_scoped_ip (ScopedIpAddr.v4 a) (SocketAddr.v4 s) = (_, refl, refl, refl)
scoped_ip-set_scoped_ip (ScopedIpAddr.v4 a) (SocketAddr.v6 s) = (_, refl, refl, refl)
scoped_ip-set_scoped_ip (ScopedIpAddr.v6 a) (SocketAddr.v4 s) = (_, refl, refl, refl)
scoped_ip-set_scoped_ip (ScopedIpAddr.v6 a) (SocketAddr.v6 s) = (_, refl, refl, refl)

-- Setting the scoped address that a socket address has already changes nothing, the flow info
-- included.
pub set_scoped_ip-scoped_ip : (s : SocketAddr) → set_scoped_ip (scoped_ip s) s ≡ value s
unfolding scoped_ip set_scoped_ip
set_scoped_ip-scoped_ip (SocketAddr.v4 s) = refl
set_scoped_ip-scoped_ip (SocketAddr.v6 s) = refl

-- A scoped address made from an `IpAddr` has that address.
pub ip-scoped_from : (a : IpAddr) → ip (scoped_from a) ≡ a
unfolding ip scoped_from
ip-scoped_from (IpAddr.v4 a) = refl
ip-scoped_from (IpAddr.v6 a) = refl
