-- ===== src/Net.antt =====
-- Addresses: what the program uses of `std::net`. An IPv4 address is a number below 2 ^ 32 and an
-- IPv6 address one below 2 ^ 128.
pub mod Order
pub mod Least
pub mod Display
use netwhy.Prelude.{ℕ, Bool, true, false, ◌&&◌, ◌==◌}

-- `IpAddr`
pub data IpAddr : Type 0 where
  v4 v6 : ℕ → IpAddr

-- `SocketAddr`; the last two fields of an IPv6 address are `flowinfo` and `scope_id`.
pub data SocketAddr : Type 0 where
  v4 : (ip port : ℕ) → SocketAddr
  v6 : (ip port flowinfo scope_id : ℕ) → SocketAddr

-- `==` of two socket addresses
unfoldable pub addr_eq : SocketAddr → SocketAddr → Bool
addr_eq (SocketAddr.v4 i p) (SocketAddr.v4 j q) = i == j && p == q
addr_eq (SocketAddr.v6 i p f s) (SocketAddr.v6 j q g t) = i == j && p == q && f == g && s == t
addr_eq _ _ = false

abbrev pub ip : SocketAddr → IpAddr
ip (SocketAddr.v4 i p) = IpAddr.v4 i
ip (SocketAddr.v6 i p f s) = IpAddr.v6 i

abbrev pub port : SocketAddr → ℕ
port (SocketAddr.v4 i p) = p
port (SocketAddr.v6 i p f s) = p

abbrev pub is_ipv4 : SocketAddr → Bool
is_ipv4 (SocketAddr.v4 i p) = true
is_ipv4 (SocketAddr.v6 i p f s) = false

abbrev pub is_ipv6 : SocketAddr → Bool
is_ipv6 (SocketAddr.v4 i p) = false
is_ipv6 (SocketAddr.v6 i p f s) = true

-- `SocketAddr::from` of an address and a port
abbrev pub socket : IpAddr → ℕ → SocketAddr
socket (IpAddr.v4 i) p = SocketAddr.v4 i p
socket (IpAddr.v6 i) p = SocketAddr.v6 i p 0 0
