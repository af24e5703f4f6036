-- ===== src/Redaction/Verdict.antt =====
-- What src/redaction.rs leaves as it is: the verdicts of the report and of its probes.
use netwhy.Prelude.{
  Bool, List, ap, any, all, keep, is_empty, ◌&&◌, ◌||◌, Bool-cases, inl, inr, [], ◌∷◌, ◌≡◌, refl,
  String, Option, none, some, map, map_option, length, suc, ℕ, ◌∙◌,
}
use netwhy.Diagnosis.{successful}
use netwhy.Diagnosis.Transport.{all_tcp_errors, has_no_route, family_state}
use netwhy.Net.{IpAddr}
use netwhy.Model.{
  Status, is_pass, AddressFamily, DiagnosticReport, TcpResult, TlsResult, HttpResult,
  ProxyConnectResult, RouteResult, ApplicationReport, PluginResult,
}
use netwhy.Redaction.{
  RedactionLevel, apply, redact_tcp, redact_route, redact_application, redact_plugin, redact_tls,
  redact_http, redact_proxy_attempt,
}
use netwhy.Redaction.Addresses.{map-map_eq}

-- What a handshake came to
abbrev pub tls_outcome : Option TlsResult → Option Status
tls_outcome tls = map_option (λ (t : TlsResult). t.status) tls

-- What an exchange came to, and the status that the server gave
abbrev pub http_outcome : Option HttpResult → Option (Status × Option ℕ)
http_outcome http = map_option (λ (h : HttpResult). (h.status, h.status_code)) http

-- The two reports agree on the conclusion, and on what each probe came to: the status, the error's kind
-- where there is one, and for HTTP also the code. Of plugins it is the status alone.
abbrev pub AgreeOnVerdict : DiagnosticReport → DiagnosticReport → Type 0
AgreeOnVerdict q r =
    (q.overall ≡ r.overall)
    × (q.exit_code ≡ r.exit_code)
    × (q.diagnosis.code ≡ r.diagnosis.code)
    × (q.diagnosis.summary ≡ r.diagnosis.summary)
    × (q.diagnosis.suggestions ≡ r.diagnosis.suggestions)
    × (q.dns.status ≡ r.dns.status)
    × (q.dns.error_kind ≡ r.dns.error_kind)
    × (q.proxy_transport.status ≡ r.proxy_transport.status)
    × (q.proxy_transport.error_kind ≡ r.proxy_transport.error_kind)
    × (q.proxy_transport.bypassed ≡ r.proxy_transport.bypassed)
    × (q.request.proxy_mode ≡ r.request.proxy_mode)
    × (map (λ (t : RouteResult). t.status) q.routes ≡ map (λ (t : RouteResult). t.status) r.routes)
    × (map (λ (t : RouteResult). t.error_kind) q.routes
        ≡ map (λ (t : RouteResult). t.error_kind) r.routes)
    × (map (λ (t : TcpResult). t.status) q.tcp ≡ map (λ (t : TcpResult). t.status) r.tcp)
    × (map (λ (t : TcpResult). t.error_kind) q.tcp ≡ map (λ (t : TcpResult). t.error_kind) r.tcp)
    × (map (λ (a : ApplicationReport). a.status) q.application_attempts
        ≡ map (λ (a : ApplicationReport). a.status) r.application_attempts)
    × (map (λ (a : ApplicationReport). a.connect.status) q.application_attempts
        ≡ map (λ (a : ApplicationReport). a.connect.status) r.application_attempts)
    × (map (λ (a : ApplicationReport). a.connect.error_kind) q.application_attempts
        ≡ map (λ (a : ApplicationReport). a.connect.error_kind) r.application_attempts)
    × (map (λ (a : ApplicationReport). tls_outcome a.tls) q.application_attempts
        ≡ map (λ (a : ApplicationReport). tls_outcome a.tls) r.application_attempts)
    × (map (λ (a : ApplicationReport). http_outcome a.http) q.application_attempts
        ≡ map (λ (a : ApplicationReport). http_outcome a.http) r.application_attempts)
    × (map (λ (p : ProxyConnectResult). p.status) q.proxy_transport.attempts
        ≡ map (λ (p : ProxyConnectResult). p.status) r.proxy_transport.attempts)
    × (map (λ (p : ProxyConnectResult). p.error_kind) q.proxy_transport.attempts
        ≡ map (λ (p : ProxyConnectResult). p.error_kind) r.proxy_transport.attempts)
    × (map (λ (p : PluginResult). p.status) q.plugins
        ≡ map (λ (p : PluginResult). p.status) r.plugins)

tls_outcome-redact_tls :
    (parse : String → Option IpAddr) (tls : Option TlsResult)
    → tls_outcome (map_option (redact_tls parse) tls) ≡ tls_outcome tls
tls_outcome-redact_tls parse none = refl
tls_outcome-redact_tls parse (some tls) = refl

http_outcome-redact_http :
    (http : Option HttpResult) → http_outcome (map_option redact_http http) ≡ http_outcome http
http_outcome-redact_http none = refl
http_outcome-redact_http (some http) = refl

module _ (parse : String → Option IpAddr) where
  -- Whatever the policy, the report that is shown agrees with the report on the outcome, the exit code,
  -- the code, the summary and the suggestions of the diagnosis, on the proxy mode and whether the proxy was
  -- bypassed, on the status and the error's kind of DNS,
  -- of the proxy's transport and of each route, connection, reconnect for the protocol and connection to
  -- the proxy, on the status of each attempt at the protocol, of its TLS and of its HTTP with the code,
  -- and on the status of each plugin.
  pub apply-AgreeOnVerdict :
      (level : RedactionLevel) (r : DiagnosticReport) → AgreeOnVerdict (apply parse level r) r
  unfolding apply
  apply-AgreeOnVerdict RedactionLevel.standard r = (
    refl, refl, refl, refl, refl, refl, refl, refl, refl, refl, refl, refl, refl, refl, refl, refl,
    refl, refl, refl, refl, refl, refl, refl,
  )
  apply-AgreeOnVerdict RedactionLevel.strict r = (
    refl,
    refl,
    refl,
    refl,
    refl,
    refl,
    refl,
    refl,
    refl,
    refl,
    refl,
    map-map_eq (λ (t : RouteResult). t.status) (redact_route parse) _ r.routes (λ x. refl),
    map-map_eq (λ (t : RouteResult). t.error_kind) (redact_route parse) _ r.routes (λ x. refl),
    map-map_eq (λ (t : TcpResult). t.status) redact_tcp _ r.tcp (λ x. refl),
    map-map_eq (λ (t : TcpResult). t.error_kind) redact_tcp _ r.tcp (λ x. refl),
    map-map_eq (λ (a : ApplicationReport). a.status) (redact_application parse) _
        r.application_attempts (λ x. refl),
    map-map_eq (λ (a : ApplicationReport). a.connect.status) (redact_application parse) _
        r.application_attempts (λ x. refl),
    map-map_eq (λ (a : ApplicationReport). a.connect.error_kind) (redact_application parse) _
        r.application_attempts (λ x. refl),
    map-map_eq (λ (a : ApplicationReport). tls_outcome a.tls) (redact_application parse) _
        r.application_attempts (λ x. tls_outcome-redact_tls parse x.tls),
    map-map_eq (λ (a : ApplicationReport). http_outcome a.http) (redact_application parse) _
        r.application_attempts (λ x. http_outcome-redact_http x.http),
    map-map_eq (λ (p : ProxyConnectResult). p.status) redact_proxy_attempt _
        r.proxy_transport.attempts (λ x. refl),
    map-map_eq (λ (p : ProxyConnectResult). p.error_kind) redact_proxy_attempt _
        r.proxy_transport.attempts (λ x. refl),
    map-map_eq (λ (p : PluginResult). p.status) redact_plugin _ r.plugins (λ x. refl),
  )

module _ {ℓ κ} {A : Type ℓ} {B : Type κ} (f : A → B) where
  is_empty-map : (xs : List A) → is_empty (map f xs) ≡ is_empty xs
  is_empty-map [] = refl
  is_empty-map (x ∷ xs) = refl

  all-map : (p : B → Bool) (xs : List A) → all p (map f xs) ≡ all (λ x. p (f x)) xs
  all-map p [] = refl
  all-map p (x ∷ xs) = ap (λ b. p (f x) && b) (all-map p xs)

  any-map : (p : B → Bool) (xs : List A) → any p (map f xs) ≡ any (λ x. p (f x)) xs
  any-map p [] = refl
  any-map p (x ∷ xs) = ap (λ b. p (f x) || b) (any-map p xs)

  length-map : (xs : List A) → length (map f xs) ≡ length xs
  length-map [] = refl
  length-map (x ∷ xs) = ap suc (length-map xs)

  keep-map : (p : B → Bool) (xs : List A) → keep p (map f xs) ≡ map f (keep (λ x. p (f x)) xs)
  keep-map p [] = refl
  keep-map p (x ∷ xs) = elim (Bool-cases (p (f x))) [
    | inl e ↦ rw e (ap (λ ys. f x ∷ ys) (keep-map p xs))
    | inr e ↦ rw e (keep-map p xs)
  ]

module _ (parse : String → Option IpAddr) (r : DiagnosticReport) where
  all_tcp_errors_redacted :
      (kinds : List String)
      → all_tcp_errors (map redact_tcp r.tcp) kinds ≡ all_tcp_errors r.tcp kinds
  unfolding all_tcp_errors
  all_tcp_errors_redacted kinds = rw (is_empty-map redact_tcp r.tcp, all-map redact_tcp) refl

  has_no_route_redacted :
      has_no_route (map redact_tcp r.tcp) (map (redact_route parse) r.routes)
      ≡ has_no_route r.tcp r.routes
  unfolding has_no_route
  has_no_route_redacted =
      rw
        (
          is_empty-map redact_tcp r.tcp,
          all-map redact_tcp,
          is_empty-map (redact_route parse) r.routes,
          all-map (redact_route parse),
        )
        refl

  family_state_redacted :
      (family : AddressFamily)
      → family_state (map redact_tcp r.tcp) family ≡ family_state r.tcp family
  unfolding family_state
  family_state_redacted family =
      rw (keep-map redact_tcp, is_empty-map redact_tcp, any-map redact_tcp) refl

  successful_redacted : successful (map redact_tcp r.tcp) ≡ successful r.tcp
  successful_redacted =
      ap length (keep-map redact_tcp (λ (t : TcpResult). is_pass t.status) r.tcp)
      ∙ length-map redact_tcp (keep (λ (t : TcpResult). is_pass t.status) r.tcp)

  -- Under the strict policy these tests of the diagnosis have the same answers on the report that is
  -- shown: how many connections worked, whether all of them failed in one of the given ways, whether
  -- there is no route, and what each address family came to.
  pub apply-KeepsTransport :
      let q = apply parse RedactionLevel.strict r in
      (successful q.tcp ≡ successful r.tcp)
      × ((kinds : List String) → all_tcp_errors q.tcp kinds ≡ all_tcp_errors r.tcp kinds)
      × (has_no_route q.tcp q.routes ≡ has_no_route r.tcp r.routes)
      × ((family : AddressFamily) → family_state q.tcp family ≡ family_state r.tcp family)
  unfolding apply
  apply-KeepsTransport =
      (successful_redacted, all_tcp_errors_redacted, has_no_route_redacted, family_state_redacted)
