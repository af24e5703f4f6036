-- ===== src/Redaction/Texts.antt =====
-- The addresses that a report holds as texts, and what src/redaction.rs leaves of them.
use mathlib.Core.Path.{ap₂}
use netwhy.Prelude.{
  ◌≤◌, ◌<◌, ◌≡◌, ◌⊎◌, inl, inr, refl, ap, sym, ◌∙◌, String, Option, none, some, map_option,
  Option-cases, List, [], ◌∷◌, ◌++◌, map, arith,
}
use netwhy.Net.{IpAddr}
use netwhy.Net.Display.{display}
use netwhy.Model.{
  DiagnosticReport, RouteResult, ApplicationReport, TlsResult, CertificateInfo, ResolverLink,
}
use netwhy.Redaction.Hash.{redact_ip, redact_address_text, pseudonym}
use netwhy.Redaction.{
  RedactionLevel, apply, redact_route, redact_application, redact_certificate, redact_tls,
  redact_link,
}

abbrev pub gather : {A : Type 0} → (A → List String) → List A → List String
gather f [] = []
gather f (x ∷ xs) = f x ++ gather f xs

abbrev pub texts_of : Option String → List String
texts_of none = []
texts_of (some text) = text ∷ []

abbrev pub route_texts : RouteResult → List String
route_texts route = texts_of route.gateway ++ texts_of route.source

abbrev pub tls_texts : Option TlsResult → List String
tls_texts none = []
tls_texts (some tls) = gather (λ (c : CertificateInfo). c.ip_addresses) tls.peer_certificates

-- Every address that a report holds as a text: the gateways and the sources of the routes, the addresses
-- in the certificates, and the DNS servers.
abbrev pub address_texts : DiagnosticReport → List String
address_texts r =
    gather route_texts r.routes
    ++ (gather (λ (a : ApplicationReport). tls_texts a.tls) r.application_attempts
        ++ (r.path_evidence.resolver.global_servers
            ++ gather (λ (l : ResolverLink). l.servers) r.path_evidence.resolver.links))

-- 192.0.2.1 to 192.0.2.254, or below 2001:db8::1:0:0.
abbrev pub IsDocumentationIp : IpAddr → Type 0
IsDocumentationIp (IpAddr.v4 i) = (0xc0000200 < i) × (i < 0xc00002ff)
IsDocumentationIp (IpAddr.v6 i) =
    (0x20010db8000000000000000000000000 ≤ i) × (i < 0x20010db8000000000000000100000000)

-- A text in place of another: the display of an address reserved for documentation where that reads as
-- an address, and a pseudonym of it otherwise.
abbrev pub IsStandIn : (String → Option IpAddr) → String → String → Type 0
IsStandIn parse text shown =
    ((a : IpAddr) × (b : IpAddr) × (parse text ≡ some a)
      × IsDocumentationIp b
      × (shown ≡ display b))
    ⊎ ((parse text ≡ none) × (shown ≡ pseudonym "value" text))

IsDocumentationIp-redact_ip : (a : IpAddr) → IsDocumentationIp (redact_ip a)
unfolding redact_ip
IsDocumentationIp-redact_ip (IpAddr.v4 i) = (omega arith, omega arith)
IsDocumentationIp-redact_ip (IpAddr.v6 i) = (omega arith, omega arith)

IsStandIn-redact_address_text :
    (parse : String → Option IpAddr) (text : String)
    → IsStandIn parse text (redact_address_text parse text)
unfolding redact_address_text
IsStandIn-redact_address_text parse text = elim (Option-cases (parse text)) [
  | inl e ↦ inr (e, rw (e, redact_address_text) refl)
  | inr (a, e) ↦
      inl (a, redact_ip a, e, IsDocumentationIp-redact_ip a, rw (e, redact_address_text) refl)
]

pub map-append {ℓ κ} :
    {A : Type ℓ} {B : Type κ} (f : A → B) (xs ys : List A) → map f (xs ++ ys) ≡ map f xs ++ map f ys
map-append f [] ys = refl
map-append f (x ∷ xs) ys = ap (λ zs. f x ∷ zs) (map-append f xs ys)

gather-map :
    {A : Type 0} (f : A → List String) (g : A → A) (h : String → String)
    → ((x : A) → f (g x) ≡ map h (f x))
    → (xs : List A) → gather f (map g xs) ≡ map h (gather f xs)
gather-map f g h e [] = refl
gather-map f g h e (x ∷ xs) =
    ap₂ (λ ys zs. ys ++ zs) (e x) (gather-map f g h e xs) ∙ sym (map-append h (f x) (gather f xs))

texts_of-map :
    (h : String → String) (o : Option String) → texts_of (map_option h o) ≡ map h (texts_of o)
texts_of-map h none = refl
texts_of-map h (some text) = refl

module _ (parse : String → Option IpAddr) where
  route_texts-redact_route :
      (route : RouteResult)
      → route_texts (redact_route parse route) ≡ map (redact_address_text parse) (route_texts route)
  route_texts-redact_route route =
      ap₂ (λ ys zs. ys ++ zs) (texts_of-map (redact_address_text parse) route.gateway)
        (texts_of-map (redact_address_text parse) route.source)
      ∙ sym
          (map-append (redact_address_text parse) (texts_of route.gateway) (texts_of route.source))

  tls_texts-redact_tls :
      (tls : Option TlsResult)
      → tls_texts (map_option (redact_tls parse) tls)
        ≡ map (redact_address_text parse) (tls_texts tls)
  unfolding redact_certificate
  tls_texts-redact_tls none = refl
  tls_texts-redact_tls (some tls) =
      gather-map (λ (c : CertificateInfo). c.ip_addresses) (redact_certificate parse)
        (redact_address_text parse) (λ x. refl) tls.peer_certificates

  application_texts :
      (a : ApplicationReport)
      → tls_texts (redact_application parse a).tls
        ≡ map (redact_address_text parse) (tls_texts a.tls)
  application_texts a = tls_texts-redact_tls a.tls

  -- The second list has a stand-in for each text of the first, in its place.
  abbrev pub AllStandIns : List String → List String → Type 0
  AllStandIns [] [] = Unit
  AllStandIns (t ∷ ts) (u ∷ us) = IsStandIn parse t u × AllStandIns ts us
  AllStandIns _ _ = ⊥

  pub AllStandIns-map : (ts : List String) → AllStandIns ts (map (redact_address_text parse) ts)
  AllStandIns-map [] = tt
  AllStandIns-map (t ∷ ts) = (IsStandIn-redact_address_text parse t, AllStandIns-map ts)

  pub address_texts-apply :
      (r : DiagnosticReport)
      → address_texts (apply parse RedactionLevel.strict r)
        ≡ map (redact_address_text parse) (address_texts r)
  unfolding apply
  address_texts-apply r =
      rw
        (
          map-append,
          map-append,
          map-append,
          gather-map route_texts (redact_route parse) (redact_address_text parse)
              route_texts-redact_route r.routes,
          gather-map (λ (a : ApplicationReport). tls_texts a.tls) (redact_application parse)
              (redact_address_text parse) application_texts r.application_attempts,
          gather-map (λ (l : ResolverLink). l.servers) (redact_link parse)
              (redact_address_text parse) (λ x. refl) r.path_evidence.resolver.links,
        )
        refl
