-- ===== src/ApplicationProbe/Loop.antt =====
-- `probe` and `probe_via_proxy` of src/probe/application.rs: the attempts, one after the other, until one
-- does not fail.
pub mod Until
pub mod Tried
pub mod Paired
use netwhy.Prelude.{
  ℕ, zero, suc, Bool, true, false, not, ◌&&◌, ◌==◌, leb, String, ◌<>◌, Option, none, some, List, [],
  ◌∷◌, if◌then◌else◌, str_eq, is_some, decimal, any, keep, map_option, and_then,
}
use netwhy.Net.{SocketAddr}
use netwhy.Model.{
  Status, is_failure, is_pass, TcpResult, HttpResult, ApplicationReport, ProxyConnectResult,
  ProxyTransportEvidence,
}
use netwhy.Sanitize.{sanitize_report_text}
use netwhy.Tcp.{error_kind}
use netwhy.Url.{Readers}
use netwhy.Target.{Target}
use netwhy.Proxy.{SelectedProxy}
use netwhy.ApplicationProbe.Stream.{IoError, Stream, IoResult, ok, failed}
use netwhy.ApplicationProbe.Attempt.{
  Opening, Run, probe_http, probe_https, successful_connect, connect_failure,
  probe_proxy_application, is_http_proxy,
}
use netwhy.ApplicationProbe.Tunnel.{TunnelRun, open_proxy_stream}

-- `sort_by_key` of the duration, which is stable
abbrev pub insert_by_duration : TcpResult → List TcpResult → List TcpResult
insert_by_duration r [] = r ∷ []
insert_by_duration r (x ∷ xs) =
    let rest = insert_by_duration r xs in
    if leb r.duration_ms x.duration_ms then r ∷ x ∷ xs else x ∷ rest

abbrev pub sort_by_duration : List TcpResult → List TcpResult
sort_by_duration [] = []
sort_by_duration (x ∷ xs) = insert_by_duration x (sort_by_duration xs)

-- The results that passed, the fastest first.
unfoldable pub candidates : List TcpResult → List TcpResult
candidates tcp_results = sort_by_duration (keep (λ (r : TcpResult). is_pass r.status) tcp_results)

-- The loop over the addresses, for any attempt: it breaks after the first that got through.
abbrev pub until {ℓ κ} : {A : Type ℓ} {R : Type κ} → (R → Bool) → (A → R) → List A → List R
until is_reached attempt [] = []
until is_reached attempt (c ∷ cs) =
    let rest = until is_reached attempt cs in
    if is_reached (attempt c) then attempt c ∷ [] else attempt c ∷ rest

abbrev pub is_answered : ApplicationReport → Bool
is_answered report = not (is_failure report.status)

-- One attempt of `probe`
abbrev pub attempt_on :
    String → Target → ℕ → (SocketAddr → Run × Opening) → TcpResult → ApplicationReport
attempt_on version target timeout_ms outside candidate =
    let (run, opening) = outside candidate.address in
    if str_eq target.scheme "https"
    then probe_https version target candidate.address timeout_ms run opening
    else probe_http version target candidate.address timeout_ms run opening

-- `probe`; what the outside gives the attempt on an address is an argument.
unfoldable pub probe :
    String → Target → List TcpResult → ℕ → (SocketAddr → Run × Opening) → List ApplicationReport
unfolding candidates probe_http probe_https
probe version target tcp_results timeout_ms outside =
    if str_eq target.scheme "tcp"
    then []
    else until is_answered (attempt_on version target timeout_ms outside) (candidates tcp_results)

abbrev pub code_407 : Option ℕ → Option ℕ
code_407 none = none
code_407 (some status) = if status == 407 then some status else none

abbrev pub forwarded_proxy_rejection : ApplicationReport → Option ℕ
forwarded_proxy_rejection application =
    code_407 (and_then application.http (λ (http : HttpResult). http.status_code))

-- What one address of the proxy adds to the two lists.
pub record Pair : Type 0 where
  pub application : ApplicationReport
  pub proxy_attempt : ProxyConnectResult

unfoldable pub record_proxy_failure : Target → SocketAddr → ℕ → IoError → Pair
unfolding sanitize_report_text connect_failure
record_proxy_failure target address duration_ms e = record {
  application =
      connect_failure target.scheme address duration_ms (error_kind e.kind)
        (sanitize_report_text e.text);
  proxy_attempt = record {
    status = Status.fail;
    address = address;
    duration_ms = duration_ms;
    tunnel_status = e.connect_status;
    error_kind = some (error_kind e.kind);
    error = some (sanitize_report_text e.text);
  };
}

abbrev pub rejection_of : Target → SelectedProxy → ApplicationReport → Option ℕ
rejection_of target proxy application =
    if str_eq target.scheme "http" && is_http_proxy proxy
    then forwarded_proxy_rejection application
    else none

abbrev pub record_proxy_success : SocketAddr → ℕ → Option ℕ → Option ℕ → ApplicationReport → Pair
record_proxy_success address duration_ms tunnel_status rejection application = record {
  application = application;
  proxy_attempt = record {
    status = if is_some rejection then Status.fail else Status.pass;
    address = address;
    duration_ms = duration_ms;
    tunnel_status = tunnel_status;
    error_kind = map_option (λ _. "permission_denied") rejection;
    error =
        map_option (λ status. "forward proxy rejected the request with HTTP " <> decimal status)
          rejection;
  };
}

-- What the outside gives the attempt on an address of the proxy
pub record ProxyRun : Type 0 where
  pub opening : Opening
  pub tunnel : TunnelRun
  pub opened_ms : ℕ
  pub run : Run

module _ (readers : Readers) (decode : String → String) (version : String) (target : Target)
    (proxy : SelectedProxy) (timeout_ms : ℕ) where
  abbrev pub through : SocketAddr → ProxyRun → Stream → Option ApplicationReport
  through address outside stream =
      probe_proxy_application readers decode version target proxy address
        (successful_connect outside.opened_ms) timeout_ms outside.run stream

  abbrev pub reached : SocketAddr → ProxyRun → Option ℕ → ApplicationReport → Pair
  reached address outside tunnel_status application =
      record_proxy_success address outside.opened_ms tunnel_status
        (rejection_of target proxy application) application

  abbrev pub after_opening : SocketAddr → ProxyRun → IoResult (Stream × Option ℕ) → Option Pair
  after_opening address outside (ok (stream, tunnel_status)) =
      map_option (reached address outside tunnel_status) (through address outside stream)
  after_opening address outside (failed e) =
      some (record_proxy_failure target address outside.opened_ms e)

  -- One round of the loop; `none` is a panic.
  abbrev pub round : SocketAddr → ProxyRun → Option Pair
  round address outside =
      and_then (open_proxy_stream decode version proxy target outside.tunnel outside.opening)
        (after_opening address outside)

-- A round ends the loop unless the proxy or the application failed.
abbrev pub is_reached : Pair → Bool
is_reached p = not (is_failure p.proxy_attempt.status) && not (is_failure p.application.status)

-- A panic ends it as well.
abbrev pub is_last : Option Pair → Bool
is_last none = true
is_last (some p) = is_reached p

-- What all rounds came to, where none of them panicked.
abbrev pub all_some {ℓ} : {A : Type ℓ} → List (Option A) → Option (List A)
all_some [] = some []
all_some (none ∷ os) = none
all_some (some a ∷ os) = map_option (λ rest. a ∷ rest) (all_some os)

abbrev pub applications : List Pair → List ApplicationReport
applications [] = []
applications (p ∷ pairs) = p.application ∷ applications pairs

abbrev pub proxy_attempts : List Pair → List ProxyConnectResult
proxy_attempts [] = []
proxy_attempts (p ∷ pairs) = p.proxy_attempt ∷ proxy_attempts pairs

abbrev pub evidence_of : SelectedProxy → List ProxyConnectResult → ProxyTransportEvidence
evidence_of proxy attempts = record {
  status =
      if any (λ (a : ProxyConnectResult). is_pass a.status) attempts
      then Status.pass
      else Status.fail;
  mode = "proxy";
  selected_proxy = some proxy.redacted_url;
  bypassed = false;
  attempts = attempts;
  error_kind = none;
  error = none;
}

unfoldable pub probe_via_proxy :
    Readers
    → (String → String)
    → String
    → Target
    → SelectedProxy
    → ℕ
    → (SocketAddr → ProxyRun)
    → Option (List ApplicationReport × ProxyTransportEvidence)
unfolding open_proxy_stream probe_proxy_application record_proxy_failure
probe_via_proxy readers decode version target proxy timeout_ms outside =
    map_option
      (λ (pairs : List Pair). (applications pairs, evidence_of proxy (proxy_attempts pairs)))
      (all_some (
        until is_last
          (λ address.
            round readers decode version target proxy timeout_ms address (outside address))
          proxy.addresses))
