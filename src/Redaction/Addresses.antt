-- ===== src/Redaction/Addresses.antt =====
-- What src/redaction.rs leaves of the addresses of a report.
use mathlib.Core.Path.{ap₂}
use netwhy.Prelude.{
  ◌≤◌, ◌<◌, ◌≡◌, refl, sym, ◌∙◌, String, Option, List, [], ◌∷◌, ◌++◌, map, arith, All,
}
use netwhy.Net.{SocketAddr, IpAddr, port}
use netwhy.Model.{
  DiagnosticReport, RouteResult, TcpResult, ApplicationReport, ProxyConnectResult, MtuResult,
  family_of,
}
use netwhy.Redaction.Texts.{
  address_texts, AllStandIns, AllStandIns-map, map-append, address_texts-apply,
}
use netwhy.Redaction.Hash.{redact_socket}
use netwhy.Redaction.{
  RedactionLevel, apply, redact_route, redact_tcp, redact_application, redact_proxy_attempt,
  redact_mtu,
}

-- Every socket address that a report holds.
abbrev pub socket_addresses : DiagnosticReport → List SocketAddr
socket_addresses r =
    r.dns.addresses
    ++ (map (λ (x : RouteResult). x.address) r.routes
        ++ (map (λ (x : TcpResult). x.address) r.tcp
            ++ (map (λ (x : ApplicationReport). x.address) r.application_attempts
                ++ (map (λ (x : ProxyConnectResult). x.address) r.proxy_transport.attempts
                    ++ map (λ (x : MtuResult). x.address) r.path_evidence.mtu))))

-- 192.0.2.1 to 192.0.2.254, or below 2001:db8::1:0:0.
abbrev pub IsDocumentation : SocketAddr → Type 0
IsDocumentation (SocketAddr.v4 i p) = (0xc0000200 < i) × (i < 0xc00002ff)
IsDocumentation (SocketAddr.v6 i p flowinfo scope_id) =
    (0x20010db8000000000000000000000000 ≤ i)
    × (i < 0x20010db8000000000000000100000000)
    × (flowinfo ≡ 0)
    × (scope_id ≡ 0)

IsDocumentation-redact_socket : (a : SocketAddr) → IsDocumentation (redact_socket a)
unfolding redact_socket
IsDocumentation-redact_socket (SocketAddr.v4 i p) = (omega arith, omega arith)
IsDocumentation-redact_socket (SocketAddr.v6 i p f s) = (omega arith, omega arith, refl, refl)

family_of-redact_socket : (a : SocketAddr) → family_of (redact_socket a) ≡ family_of a
unfolding redact_socket
family_of-redact_socket (SocketAddr.v4 i p) = refl
family_of-redact_socket (SocketAddr.v6 i p f s) = refl

port-redact_socket : (a : SocketAddr) → port (redact_socket a) ≡ port a
unfolding redact_socket
port-redact_socket (SocketAddr.v4 i p) = refl
port-redact_socket (SocketAddr.v6 i p f s) = refl

module _ {ℓ κ} {A : Type ℓ} {B : Type κ} where
  pub map-map_eq {μ} :
      {C : Type μ} (f : A → B) (g : C → A) (h : C → B) (xs : List C)
      → ((x : C) → f (g x) ≡ h x)
      → map f (map g xs) ≡ map h xs
  map-map_eq f g h [] e = refl
  map-map_eq f g h (x ∷ xs) e = ap₂ (λ y ys. y ∷ ys) (e x) (map-map_eq f g h xs e)

  All-map {μ} :
      (P : B → Type μ) (f : A → B) → ((x : A) → P (f x)) → (xs : List A) → All P (map f xs)
  All-map P f h [] = tt
  All-map P f h (x ∷ xs) = (h x, All-map P f h xs)

-- The element's address is what was redacted.
addresses-map :
    {A : Type 0} (address : A → SocketAddr) (f : A → A)
    → ((x : A) → address (f x) ≡ redact_socket (address x))
    → (xs : List A) → map address (map f xs) ≡ map redact_socket (map address xs)
addresses-map address f e xs =
    map-map_eq address f (λ x. redact_socket (address x)) xs e
    ∙ sym (map-map_eq redact_socket address (λ x. redact_socket (address x)) xs (λ x. refl))

module _ (parse : String → Option IpAddr) (r : DiagnosticReport) where
  socket_addresses-apply :
      socket_addresses (apply parse RedactionLevel.strict r)
      ≡ map redact_socket (socket_addresses r)
  unfolding apply
  socket_addresses-apply =
      rw
        (
          map-append,
          map-append,
          map-append,
          map-append,
          map-append,
          addresses-map (λ (x : RouteResult). x.address) (redact_route parse) (λ x. refl) r.routes,
          addresses-map (λ (x : TcpResult). x.address) redact_tcp (λ x. refl) r.tcp,
          addresses-map (λ (x : ApplicationReport). x.address) (redact_application parse)
              (λ x. refl) r.application_attempts,
          addresses-map (λ (x : ProxyConnectResult). x.address) redact_proxy_attempt (λ x. refl)
              r.proxy_transport.attempts,
          addresses-map (λ (x : MtuResult). x.address) redact_mtu (λ x. refl) r.path_evidence.mtu,
        )
        refl

  -- Under the strict policy every socket address of the report (of DNS, the routes, the connections, the
  -- attempts, the proxy's connections and the MTU checks) is one reserved for documentation, in its
  -- place, with the family and the port of the address that it stands for. Every address that is a text
  -- (the gateways and sources of the routes, the addresses in certificates, the DNS servers) has a
  -- stand-in in its place: an address reserved for documentation where it reads as an address, and a
  -- pseudonym otherwise.
  pub apply-IsDocumentation :
      let shown = socket_addresses (apply parse RedactionLevel.strict r) in
      All IsDocumentation shown
      × (map family_of shown ≡ map family_of (socket_addresses r))
      × (map port shown ≡ map port (socket_addresses r))
      × AllStandIns parse (address_texts r) (address_texts (apply parse RedactionLevel.strict r))
  apply-IsDocumentation =
      rw (socket_addresses-apply, address_texts-apply parse r)
        (
          All-map IsDocumentation redact_socket IsDocumentation-redact_socket (socket_addresses r),
          map-map_eq family_of redact_socket family_of (socket_addresses r) family_of-redact_socket,
          map-map_eq port redact_socket port (socket_addresses r) port-redact_socket,
          AllStandIns-map parse (address_texts r),
        )
