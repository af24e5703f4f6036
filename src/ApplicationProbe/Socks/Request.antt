-- ===== src/ApplicationProbe/Socks/Request.antt =====
-- `socks5_request` of src/probe/application.rs against a reader of RFC 1928.
use mathlib.Core.Path.{subst}
use mathlib.Core.List.{Memᴰ}
use netwhy.Prelude.{
  ℕ, ◌+◌, ◌^◌, ◌≤◌, ◌<◌, ◌≡◌, refl, sym, ap, ◌∙◌, true, false, ◌==◌, Option, none, some, List, [],
  ◌∷◌, ◌++◌, length, take, drop, All, Bool-cases, inl, inr, arith, if◌then◌else◌, str_eq, bytes,
  be_bytes, be_value, be_value-be_bytes, length-append, leb, find, take-append, drop-append,
  mem_of_find, All-mem,
}
use netwhy.Net.{IpAddr, SocketAddr, ip}
use netwhy.Target.{Target}
use netwhy.Proxy.{SelectedProxy, allows_ip}
use netwhy.ApplicationProbe.Stream.{IoResult, ok, failed, ok-injective}
use netwhy.ApplicationProbe.Socks.{
  socks5_request, destination_address, literal_address, of_first, first_allowed, address_request,
  name_request, address_bytes, connect_request,
}

-- Where a request asks the proxy to connect to
pub data Destination : Type 0 where
  address : IpAddr → Destination
  name : List ℕ → Destination

-- An address of so many bytes in front of the two bytes of a port
abbrev read_address : ℕ → (ℕ → IpAddr) → List ℕ → Option (Destination × ℕ)
read_address n family bs =
    if length bs == n + 2
    then some (Destination.address (family (be_value 0 (take n bs))), be_value 0 (drop n bs))
    else none

abbrev read_name : List ℕ → Option (Destination × ℕ)
read_name [] = none
read_name (n ∷ bs) =
    if length bs == n + 2 then some (Destination.name (take n bs), be_value 0 (drop n bs)) else none

abbrev read_destination : ℕ → List ℕ → Option (Destination × ℕ)
read_destination kind bs =
    if kind == 0x01
    then read_address 4 IpAddr.v4 bs
    else if kind == 0x04
    then read_address 16 IpAddr.v6 bs
    else if kind == 0x03
    then read_name bs
    else none

-- A CONNECT request as a SOCKS5 server reads it: version, command, a reserved byte and the destination.
unfoldable pub decode_request : List ℕ → Option (Destination × ℕ)
decode_request (version ∷ command ∷ reserved ∷ kind ∷ bs) =
    if version == 0x05 then if command == 0x01 then read_destination kind bs else none else none
decode_request _ = none

-- A part of so many bytes in front of two more is read back.
framed {ℓ} :
    {A : Type ℓ} (f : List ℕ → List ℕ → A) (n : ℕ) (xs ys : List ℕ)
    → length xs ≡ n
    → length ys ≡ 2
    → (if length (xs ++ ys) == n + 2
        then some (f (take n (xs ++ ys)) (drop n (xs ++ ys)))
        else none)
      ≡ some (f xs ys)
framed f n xs ys h k =
    let same : (length (xs ++ ys) == n + 2) ≡ true = ground (arith, length-append xs ys) in
    let taken : take n (xs ++ ys) ≡ xs = rw (sym h) (take-append xs ys) in
    let dropped : drop n (xs ++ ys) ≡ ys = rw (sym h) (drop-append xs ys) in
    rw (same, taken, dropped) refl

-- An address is a number of 32 or of 128 bits.
abbrev pub IsAddress : IpAddr → Type 0
IsAddress (IpAddr.v4 i) = i < 2 ^ 32
IsAddress (IpAddr.v6 i) = i < 2 ^ 128

port-value : (port : ℕ) → port < 65536 → be_value 0 (be_bytes 2 port) ≡ port
port-value port h = be_value-be_bytes 2 port h

decode-name :
    (host : List ℕ) (port : ℕ)
    → port < 65536
    → decode_request (connect_request (0x03 ∷ length host ∷ host) port)
      ≡ some (Destination.name host, port)
unfolding decode_request
decode-name host port h =
    framed (λ xs ys. (Destination.name xs, be_value 0 ys)) (length host) host (be_bytes 2 port) refl
      refl
    ∙ ap (λ p. some (Destination.name host, p)) (port-value port h)

decode-address :
    (a : IpAddr) (port : ℕ)
    → IsAddress a
    → port < 65536
    → decode_request (connect_request (address_bytes a) port) ≡ some (Destination.address a, port)
unfolding decode_request
decode-address (IpAddr.v4 i) port h k =
    framed (λ xs ys. (Destination.address (IpAddr.v4 (be_value 0 xs)), be_value 0 ys)) 4
      (be_bytes 4 i) (be_bytes 2 port) refl refl
    ∙ rw (be_value-be_bytes 4 i h, port-value port k) refl
decode-address (IpAddr.v6 i) port h k =
    framed (λ xs ys. (Destination.address (IpAddr.v6 (be_value 0 xs)), be_value 0 ys)) 16
      (be_bytes 16 i) (be_bytes 2 port) refl refl
    ∙ rw (be_value-be_bytes 16 i h, port-value port k) refl

-- The addresses that a proxy may be asked for: the literal one of the target, and otherwise those that the
-- lookup found.
abbrev pub sources : Option SocketAddr → IoResult (List SocketAddr) → List SocketAddr
sources (some literal) lookup = literal ∷ []
sources none (ok addresses) = addresses
sources none (failed e) = []

-- The destination that the proxy's scheme asks for
abbrev pub IsWanted : SelectedProxy → Target → List SocketAddr → Destination → Type 0
IsWanted proxy target addresses (Destination.address a) =
    (str_eq proxy.url.scheme "socks5" ≡ true)
    × (allows_ip proxy a ≡ true)
    × ((s : SocketAddr) × Memᴰ s addresses × (ip s ≡ a))
IsWanted proxy target addresses (Destination.name host) =
    (str_eq proxy.url.scheme "socks5" ≡ false) × (host ≡ bytes target.host) × (length host ≤ 255)

abbrev IsAllowedSource : SelectedProxy → List SocketAddr → IpAddr → Type 0
IsAllowedSource proxy addresses a =
    (allows_ip proxy a ≡ true) × ((s : SocketAddr) × Memᴰ s addresses × (ip s ≡ a))

found-IsAllowedSource :
    (proxy : SelectedProxy) (addresses : List SocketAddr) (a : IpAddr)
    → first_allowed proxy addresses ≡ IoResult.ok a
    → IsAllowedSource proxy addresses a
found-IsAllowedSource proxy addresses a h =
    of_found (find (λ s. allows_ip proxy (ip s)) addresses) (mem_of_find _ addresses) h
  where
    of_found :
        (found : Option SocketAddr)
        → ((s : SocketAddr) → found ≡ some s → Memᴰ s addresses × (allows_ip proxy (ip s) ≡ true))
        → of_first found ≡ IoResult.ok a
        → IsAllowedSource proxy addresses a
    of_found none m k = cc
    of_found (some s) m k =
        let same = ok-injective (ip s) a k in
        let (there, allowed) = m s refl in
        (ap (allows_ip proxy) (sym same) ∙ allowed, (s, there, same))

literal-IsAllowedSource :
    (proxy : SelectedProxy) (literal : SocketAddr) (a : IpAddr)
    → literal_address proxy literal ≡ IoResult.ok a
    → IsAllowedSource proxy (literal ∷ []) a
literal-IsAllowedSource proxy literal a h = elim (Bool-cases (allows_ip proxy (ip literal))) [
  | inl b ↦
      let same = ok-injective (ip literal) a (rw b at h) in
      (ap (allows_ip proxy) (sym same) ∙ b, (literal, Memᴰ.head refl, same))
  | inr b ↦ (let k = rw b at h in cc)
]

destination-IsAllowedSource :
    (proxy : SelectedProxy) (literal : Option SocketAddr) (lookup : IoResult (List SocketAddr))
    (a : IpAddr)
    → destination_address proxy literal lookup ≡ IoResult.ok a
    → IsAllowedSource proxy (sources literal lookup) a
destination-IsAllowedSource proxy (some literal) lookup a h =
    literal-IsAllowedSource proxy literal a h
destination-IsAllowedSource proxy none (ok addresses) a h =
    found-IsAllowedSource proxy addresses a h
destination-IsAllowedSource proxy none (failed e) a h = cc

-- If a request is built, for a port below 65536 and addresses in range, a server reads it as a CONNECT to the
-- port of the target and to a destination that the proxy's scheme asks for: for `socks5` an address that the
-- family allows, the literal one of the target or else one that the lookup found; for the other scheme the
-- name of the target, of at most 255 bytes.
pub socks5_request-IsWanted :
    (proxy : SelectedProxy) (target : Target) (lookup : IoResult (List SocketAddr))
    (request : List ℕ)
    → socks5_request proxy target lookup ≡ IoResult.ok request
    → target.port < 65536
    → All (λ s. IsAddress (ip s)) (sources target.literal_address lookup)
    → (d : Destination) × (decode_request request ≡ some (d, target.port))
      × IsWanted proxy target (sources target.literal_address lookup) d
unfolding socks5_request
socks5_request-IsWanted proxy target lookup request h p r =
    elim (Bool-cases (str_eq proxy.url.scheme "socks5")) [
      | inl b ↦
          of_address b (destination_address proxy target.literal_address lookup)
            (destination-IsAllowedSource proxy target.literal_address lookup) (rw b at h)
      | inr b ↦ of_name b (rw b at h)
    ]
  where
    of_address :
        str_eq proxy.url.scheme "socks5" ≡ true
        → (found : IoResult IpAddr)
        → ((a : IpAddr)
            → found ≡ IoResult.ok a
            → IsAllowedSource proxy (sources target.literal_address lookup) a)
        → address_request target.port found ≡ IoResult.ok request
        → (d : Destination) × (decode_request request ≡ some (d, target.port))
          × IsWanted proxy target (sources target.literal_address lookup) d
    of_address b (failed e) m k = cc
    of_address b (ok a) m k =
        let (allowed, (s, there, same)) = m a refl in
        let in_range : IsAddress a =
          subst IsAddress same (All-mem (λ t. IsAddress (ip t)) r there) in
        (
          Destination.address a,
          ap decode_request (sym (ok-injective _ request k))
              ∙ decode-address a target.port in_range p,
          (b, allowed, (s, there, same)),
        )

    of_name :
        str_eq proxy.url.scheme "socks5" ≡ false
        → name_request (bytes target.host) target.port ≡ IoResult.ok request
        → (d : Destination) × (decode_request request ≡ some (d, target.port))
          × IsWanted proxy target (sources target.literal_address lookup) d
    of_name b k = elim (Bool-cases (leb (length (bytes target.host)) 255)) [
      | inl c ↦ (
        Destination.name (bytes target.host),
        ap decode_request (sym (ok-injective _ request (rw c at k)))
            ∙ decode-name (bytes target.host) target.port p,
        (b, refl, ground arith),
      )
      | inr c ↦ (let l = rw c at k in cc)
    ]
