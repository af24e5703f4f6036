-- ===== src/Diagnosis/Spec.antt =====
-- What the codes of a diagnosis say about the evidence, independently of how src/diagnosis.rs finds
-- them.
use mathlib.Core.List.{Memᴰ}
use netwhy.Prelude.{
  ℕ, ◌≤◌, ◌<◌, String, ◌≡◌, ◌≢◌, ◌⊎◌, true, false, not, none, some, Option, [], find, find_map, All,
}
use netwhy.Model.{
  Status, is_failure, AddressFamily, DiagnosisCode, ApplicationReport, DiagnosticReport, TcpResult,
  HttpResult,
}
use netwhy.Diagnosis.Application.{ApplicationFailureStage}
use netwhy.Diagnosis.Application.Deepest.{Explains}

module _ (r : DiagnosticReport) where
  abbrev pub UsesProxy : Type 0
  UsesProxy = (r.request.proxy_mode ≢ "direct") × (r.proxy_transport.bypassed ≡ false)

  abbrev pub IsDirect : Type 0
  IsDirect = (r.request.proxy_mode ≡ "direct") ⊎ (r.proxy_transport.bypassed ≡ true)

  abbrev pub HasConnected : Type 0
  HasConnected = (t : TcpResult) × Memᴰ t r.tcp × (t.status ≡ Status.pass)

  -- The path to TCP is direct, DNS has not failed, and no address connected.
  abbrev pub TcpFailed : Type 0
  TcpFailed = IsDirect × (r.dns.status ≢ Status.fail) × All (λ t. t.status ≢ Status.pass) r.tcp

  -- The path to TCP is direct, DNS has not failed, and an address connected.
  abbrev pub TcpWorked : Type 0
  TcpWorked = IsDirect × (r.dns.status ≢ Status.fail) × HasConnected

  -- There are attempts at the application protocol, and all of them failed.
  abbrev pub ApplicationFailed : Type 0
  ApplicationFailed =
      (r.application_attempts ≢ []) × All (λ a. a.status ≡ Status.fail) r.application_attempts

  -- There are results, and all of them have an error of a kind with the property.
  abbrev pub AllTcpErrors : (String → Type 0) → Type 0
  AllTcpErrors P =
      (r.tcp ≢ []) × All (λ t. (kind : String) × (t.error_kind ≡ some kind) × P kind) r.tcp

  abbrev pub AllRoutesMissing : Type 0
  AllRoutesMissing = (r.routes ≢ []) × All (λ route. route.error_kind ≡ some "no_route") r.routes

  -- An address of the first family connected, and of the second there are only others.
  abbrev pub OnlyFamily : AddressFamily → AddressFamily → Type 0
  OnlyFamily works fails =
      ((t : TcpResult) × Memᴰ t r.tcp × (t.family ≡ works) × (t.status ≡ Status.pass))
      × (((t : TcpResult) × Memᴰ t r.tcp × (t.family ≡ fails))
          × All (λ t. t.family ≡ fails → t.status ≢ Status.pass) r.tcp)

  -- The first attempt that did not fail had an answer with the HTTP status.
  abbrev pub FirstStatus : ℕ → Type 0
  FirstStatus code =
      (a : ApplicationReport) × (result : HttpResult) × (find (λ a. not (is_failure a.status))
          r.application_attempts
        ≡ some a)
      × (a.http ≡ some result)
      × (result.status_code ≡ some code)

  -- That status is an error, of the server or of the request, and the cause says which.
  abbrev pub HasHttpError : Option String → Type 0
  HasHttpError cause =
      ((code : ℕ) × FirstStatus code
        × (500 ≤ code)
        × (cause ≡ some "the remote application or its upstream dependency is failing"))
      ⊎ ((code : ℕ) × FirstStatus code
          × (400 ≤ code)
          × (code < 500)
          × (cause
              ≡ some
                  "the endpoint rejected the request, often because of authentication, authorization, or path rules"))

  -- An answer 407 through a proxy that failed.
  abbrev pub ProxyRejected : Type 0
  ProxyRejected =
      (r.proxy_transport.status ≡ Status.fail)
      × ((a : ApplicationReport) × (result : HttpResult) × Memᴰ a r.application_attempts
          × (a.http ≡ some result)
          × (result.status_code ≡ some 407))

  -- The transport through a proxy could not be prepared.
  abbrev pub ProxyUnprepared : Type 0
  ProxyUnprepared = (r.proxy_transport.status ≡ Status.fail) × (r.application_attempts ≡ [])

  -- There are attempts through a proxy, and none of them connected.
  abbrev pub ProxyUnconnected : Type 0
  ProxyUnconnected =
      ApplicationFailed × All (λ a. a.connect.status ≡ Status.fail) r.application_attempts

  -- The failures of a proxy
  abbrev pub ProxyFailed : Type 0
  ProxyFailed = ProxyRejected ⊎ (ProxyUnprepared ⊎ ProxyUnconnected)

  -- A failure of a proxy with its cause: the rejected login, the error of the transport, or the first
  -- error among the connections.
  abbrev pub ProxyCause : Option String → Type 0
  ProxyCause cause =
      ProxyRejected
        × (cause ≡ some "the proxy requires authentication or rejected the supplied credentials")
      ⊎ (ProxyUnprepared × (cause ≡ r.proxy_transport.error)
          ⊎ ProxyUnconnected × (cause ≡ find_map (λ a. a.connect.error) r.application_attempts))

  -- The proxy did not fail, and neither did every attempt through it.
  abbrev pub ProxyWorked : Type 0
  ProxyWorked = UsesProxy × (ProxyFailed → ⊥) × (ApplicationFailed → ⊥)

  -- An attempt at the application protocol did not fail, or there was none to make.
  abbrev pub Answered : Type 0
  Answered = ProxyWorked ⊎ TcpWorked × (ApplicationFailed → ⊥)

  -- What a code with its likely cause says. Where everything worked the cause is the one that the report
  -- came with.
  abbrev pub Names : DiagnosisCode → Option String → Type 0
  Names DiagnosisCode.connectivity_ok cause =
      (ProxyWorked ⊎ (TcpWorked × All (λ a. a.status ≢ Status.fail) r.application_attempts))
      × (cause ≡ r.diagnosis.likely_cause)
  Names DiagnosisCode.dns_resolution_failed cause =
      IsDirect
      × (r.dns.status ≡ Status.fail)
      × ((cause ≡ r.dns.error) × (r.dns.error ≢ none)
          ⊎ (r.dns.error ≡ none) × (cause ≡ some "the system resolver returned no usable address"))
  Names DiagnosisCode.tcp_connection_refused cause =
      TcpFailed
      × AllTcpErrors (λ kind. kind ≡ "connection_refused")
      × (cause
          ≡ some "nothing is listening on the target port, or a firewall is actively rejecting it")
  Names DiagnosisCode.no_route cause =
      TcpFailed
      × (AllTcpErrors (λ kind. (kind ≡ "network_unreachable") ⊎ (kind ≡ "host_unreachable"))
          ⊎ AllRoutesMissing)
      × (cause
          ≡ some "a missing route, disconnected interface, or VPN policy is preventing delivery")
  Names DiagnosisCode.tcp_timeout cause =
      TcpFailed
      × AllTcpErrors (λ kind. kind ≡ "timeout")
      × (cause
          ≡ some
              "traffic is probably being dropped by a firewall, broken route, or unreachable service")
  Names DiagnosisCode.tcp_connect_failed cause = TcpFailed × (cause ≡ find_map (λ t. t.error) r.tcp)
  Names DiagnosisCode.address_family_partial cause =
      TcpWorked
      × All (λ a. a.status ≢ Status.fail) r.application_attempts
      × (OnlyFamily AddressFamily.ipv4 AddressFamily.ipv6
            × (cause ≡ some "the IPv6 route, VPN policy, or upstream IPv6 connectivity is broken")
          ⊎ OnlyFamily AddressFamily.ipv6 AddressFamily.ipv4
            × (cause
                ≡ some
                    "the IPv4 route, NAT, firewall policy, or upstream IPv4 connectivity is broken"))
  Names DiagnosisCode.application_address_partial cause =
      TcpWorked
      × ((a : ApplicationReport) × Memᴰ a r.application_attempts × (a.status ≡ Status.fail))
      × ((a : ApplicationReport) × Memᴰ a r.application_attempts × (a.status ≢ Status.fail))
      × (cause ≡ some "the resolved addresses do not provide equivalent application behavior")
  Names DiagnosisCode.application_connect_failed cause =
      TcpWorked
      × ApplicationFailed
      × Explains r.application_attempts ApplicationFailureStage.connect cause
  Names DiagnosisCode.proxy_connection_failed cause = UsesProxy × ProxyCause cause
  Names DiagnosisCode.tls_handshake_failed cause =
      (UsesProxy ⊎ TcpWorked)
      × ApplicationFailed
      × Explains r.application_attempts ApplicationFailureStage.tls cause
  Names DiagnosisCode.http_exchange_failed cause =
      (UsesProxy ⊎ TcpWorked)
      × ApplicationFailed
      × Explains r.application_attempts ApplicationFailureStage.http cause
  Names DiagnosisCode.http_error_status cause = Answered × HasHttpError cause

-- The outcome that goes with a code.
abbrev pub overall_of : DiagnosisCode → Status
overall_of DiagnosisCode.connectivity_ok = Status.pass
overall_of DiagnosisCode.address_family_partial = Status.warn
overall_of DiagnosisCode.application_address_partial = Status.warn
overall_of DiagnosisCode.http_error_status = Status.warn
overall_of _ = Status.fail

-- Nothing answered: DNS failed, no address connected, every attempt at the protocol failed, or the
-- proxy failed.
abbrev pub IsUnreachable : DiagnosticReport → Type 0
IsUnreachable r =
    IsDirect r × ((r.dns.status ≡ Status.fail) ⊎ (TcpFailed r ⊎ TcpWorked r × ApplicationFailed r))
    ⊎ UsesProxy r × (ProxyFailed r ⊎ ApplicationFailed r)
