-- ===== src/ApplicationProbe/Loop/Paired.antt =====
-- `probe_via_proxy` of src/probe/application.rs: the two lists that it builds belong together.
use mathlib.Core.Option.{some-injective}
use netwhy.Prelude.{
  ℕ, ◌⊎◌, ◌==◌, ==_iff, and_then, true, false, ◌&&◌, ◌≡◌, refl, ap, ◌∙◌, sym, map_option, ◌∷◌, [],
  Option, none, some, List, String, Bool-cases, inl, inr, str_eq,
}
use netwhy.Net.{SocketAddr}
use netwhy.Model.{
  ProxyTransportEvidence, Status, HttpResult, ApplicationConnectResult, ApplicationReport,
  is_failure,
}
use netwhy.Url.{Readers}
use netwhy.Target.{Target}
use netwhy.Proxy.{SelectedProxy, proxy_host}
use netwhy.ApplicationProbe.Stream.{IoError, Stream, IoResult, ok, failed}
use netwhy.ApplicationProbe.Attempt.{
  is_http_proxy, Run, Handshake, probe_https_stream, probe_proxy_application, tls_failure,
  connect_failure, successful_connect,
}
use netwhy.ApplicationProbe.Tunnel.{open_proxy_stream-some}
use netwhy.ApplicationProbe.Loop.{
  code_407, Pair, ProxyRun, until, is_reached, round, after_opening, reached, is_last, all_some,
  evidence_of, applications, proxy_attempts, probe_via_proxy, record_proxy_failure, rejection_of,
  record_proxy_success, forwarded_proxy_rejection,
}
use netwhy.ApplicationProbe.Loop.Until.{IsRun, until-IsRun}

-- What the two entries for one address have in common: the address, the time of the connection, and that an
-- application over a proxy that could not be passed fails, or is the HTTP rejection of the proxy.
pub record ArePaired (address : SocketAddr) (p : Pair) : Type 0 where
  pub application_address : p.application.address ≡ address
  pub attempt_address : p.proxy_attempt.address ≡ address
  pub same_time : p.application.connect.duration_ms ≡ p.proxy_attempt.duration_ms
  pub refused :
      is_failure p.proxy_attempt.status ≡ true
      → (is_failure p.application.status ≡ true)
        ⊎ (forwarded_proxy_rejection p.application ≡ some 407)
  pub opened :
      is_failure p.proxy_attempt.status ≡ false → p.application.connect.status ≡ Status.pass

-- A report keeps the address and the connection that it is given.
abbrev Keeps : SocketAddr → ApplicationConnectResult → ApplicationReport → Type 0
Keeps address connect report = (report.address ≡ address) × (report.connect ≡ connect)

-- A target's scheme is one of those that the parser lets through.
abbrev pub IsProbed : Target → Type 0
IsProbed target = (target.scheme ≡ "http") ⊎ ((target.scheme ≡ "https") ⊎ (target.scheme ≡ "tcp"))

remaining_scheme :
    (s : String)
    → (s ≡ "http") ⊎ ((s ≡ "https") ⊎ (s ≡ "tcp"))
    → str_eq s "tcp" ≡ false
    → str_eq s "https" ≡ false
    → str_eq s "http" ≡ true
remaining_scheme s (inl e) t h = rw e refl
remaining_scheme s (inr (inl e)) t h = absurd (cc (rw e at h))
remaining_scheme s (inr (inr e)) t h = absurd (cc (rw e at t))

probe_https_stream-Keeps :
    (version : String) (target : Target) (address : SocketAddr) (connect : ApplicationConnectResult)
    (timeout_ms : ℕ) (run : Run) (handshake : Handshake)
    → Keeps address connect
        (probe_https_stream version target address connect timeout_ms run handshake)
unfolding probe_https_stream tls_failure
probe_https_stream-Keeps version target address connect timeout_ms run
      (Handshake.agreed session s) =
    (refl, refl)
probe_https_stream-Keeps version target address connect timeout_ms run (Handshake.bad_name e) =
    (refl, refl)
probe_https_stream-Keeps version target address connect timeout_ms run (Handshake.failed e) =
    (refl, refl)
probe_https_stream-Keeps version target address connect timeout_ms run Handshake.expired =
    (refl, refl)

of_code_407 : (status : Option ℕ) (code : ℕ) → code_407 status ≡ some code → code ≡ 407
of_code_407 none code h = cc
of_code_407 (some status) code h = elim (Bool-cases (status == 407)) [
  | inl b ↦
      let found : some status ≡ some code = rw b at h in
      sym (some-injective status code found) ∙ (==_iff status 407).0 b
  | inr b ↦ (let k = rw b at h in cc)
]

is_407 :
    (application : ApplicationReport) (code : ℕ)
    → forwarded_proxy_rejection application ≡ some code
    → code ≡ 407
is_407 application code h =
    of_code_407 (and_then application.http (λ (http : HttpResult). http.status_code)) code h

module _ (readers : Readers) (decode : String → String) (version : String) (target : Target)
    (proxy : SelectedProxy) (timeout_ms : ℕ) where
  -- Where the scheme is one that a target has, there is a report.
  probe_proxy_application-Keeps :
      IsProbed target
      → (address : SocketAddr) (connect : ApplicationConnectResult) (run : Run) (s : Stream)
      → (report : ApplicationReport) × (probe_proxy_application readers decode version target proxy
            address connect timeout_ms run s
          ≡ some report)
        × Keeps address connect report
  unfolding probe_proxy_application
  probe_proxy_application-Keeps probed address connect run s =
      elim (Bool-cases (str_eq target.scheme "tcp")) [
        | inl b ↦ rw b (_, refl, (refl, refl))
        | inr b ↦ elim (Bool-cases (str_eq target.scheme "https")) [
          | inl c ↦
              rw (b, c)
                (
                  _,
                  refl,
                  probe_https_stream-Keeps version target address connect timeout_ms run
                      run.handshake,
                )
          | inr c ↦ rw (b, c, remaining_scheme target.scheme probed b c) (_, refl, (refl, refl))
        ]
      ]

  success-ArePaired :
      (address : SocketAddr) (n : ℕ) (tunnel_status rejection : Option ℕ)
      (application : ApplicationReport)
      → Keeps address (successful_connect n) application
      → ((code : ℕ) → rejection ≡ some code → forwarded_proxy_rejection application ≡ some 407)
      → ArePaired address (record_proxy_success address n tunnel_status rejection application)
  success-ArePaired address n tunnel_status none application h k = record {
    application_address = h.0;
    attempt_address = refl;
    same_time = ap (λ (c : ApplicationConnectResult). c.duration_ms) h.1;
    refused = λ e. cc;
    opened = λ e. ap (λ (c : ApplicationConnectResult). c.status) h.1;
  }
  success-ArePaired address n tunnel_status (some code) application h k = record {
    application_address = h.0;
    attempt_address = refl;
    same_time = ap (λ (c : ApplicationConnectResult). c.duration_ms) h.1;
    refused = λ e. inr (k code refl);
    opened = λ e. cc;
  }

  failure-ArePaired :
      (address : SocketAddr) (n : ℕ) (e : IoError)
      → ArePaired address (record_proxy_failure target address n e)
  unfolding record_proxy_failure connect_failure
  failure-ArePaired address n e = record {
    application_address = refl;
    attempt_address = refl;
    same_time = refl;
    refused = λ h. inl refl;
    opened = λ h. cc;
  }

  rejection_of-forwarded :
      (application : ApplicationReport) (code : ℕ)
      → rejection_of target proxy application ≡ some code
      → forwarded_proxy_rejection application ≡ some 407
  rejection_of-forwarded application code h =
      elim (Bool-cases (str_eq target.scheme "http" && is_http_proxy proxy)) [
        | inl b ↦
            let found : forwarded_proxy_rejection application ≡ some code = rw b at h in
            found ∙ ap some (is_407 application code found)
        | inr b ↦ (let k = rw b at h in cc)
      ]

  after_opening-ArePaired :
      IsProbed target
      → (address : SocketAddr) (outside : ProxyRun) (r : IoResult (Stream × Option ℕ))
      → (p : Pair) × (after_opening readers decode version target proxy timeout_ms address outside r
          ≡ some p)
        × ArePaired address p
  after_opening-ArePaired probed address outside (failed e) =
      (_, refl, failure-ArePaired address outside.opened_ms e)
  after_opening-ArePaired probed address outside (ok (s, tunnel_status)) =
      let (application, e, keeps) =
        probe_proxy_application-Keeps probed address (successful_connect outside.opened_ms)
          outside.run s in
      (
        reached readers decode version target proxy timeout_ms address outside tunnel_status
            application,
        ap
            (map_option (
              reached readers decode version target proxy timeout_ms address outside tunnel_status))
            e,
        success-ArePaired address outside.opened_ms tunnel_status
            (rejection_of target proxy application) application keeps
            (rejection_of-forwarded application),
      )

  -- A round does not panic, and what it adds is paired.
  round-ArePaired :
      IsProbed target
      → (host : String) → proxy_host proxy ≡ some host
      → (address : SocketAddr) (outside : ProxyRun)
      → (p : Pair) × (round readers decode version target proxy timeout_ms address outside ≡ some p)
        × ArePaired address p
  round-ArePaired probed host there address outside =
      let (r, e) =
        open_proxy_stream-some proxy host there decode version target outside.tunnel
          outside.opening in
      let (p, f, paired) = after_opening-ArePaired probed address outside r in
      (
        p,
        ap
              (λ o.
                and_then o
                  (after_opening readers decode version target proxy timeout_ms address outside))
              e
            ∙ f,
        paired,
      )

-- Rounds without a panic
until-some :
    (attempt : SocketAddr → Option Pair) (pair : SocketAddr → Pair)
    → ((address : SocketAddr) → attempt address ≡ some (pair address))
    → (addresses : List SocketAddr)
    → all_some (until is_last attempt addresses) ≡ some (until is_reached pair addresses)
until-some attempt pair h [] = refl
until-some attempt pair h (address ∷ addresses) = elim (Bool-cases (is_reached (pair address))) [
  | inl e ↦ rw (h address, e) refl
  | inr e ↦
      rw (h address, e)
        (ap (map_option (λ (rest : List Pair). pair address ∷ rest))
          (until-some attempt pair h addresses))
]

-- For a target of a known scheme and a proxy with a host, `probe_via_proxy` ends without a panic of
-- `unreachable!` or of the `expect` on the host. Its two lists come from the same pairs, one for each address
-- that was tried: on all addresses of the proxy, and none was reached, or up to the first that was. The
-- entries of a pair are what the round on its address adds; they are of that address and of one time; where
-- the attempt on the proxy failed, the application failed or is the answer 407 of the proxy, and where it did
-- not, the connection of the application passed.
pub probe_via_proxy-ArePaired :
    (readers : Readers) (decode : String → String) (version : String) (target : Target)
    (proxy : SelectedProxy) (timeout_ms : ℕ) (outside : SocketAddr → ProxyRun) (host : String)
    → IsProbed target
    → proxy_host proxy ≡ some host
    → (pair : SocketAddr → Pair) × (pairs : List Pair) × (evidence : ProxyTransportEvidence)
      × (probe_via_proxy readers decode version target proxy timeout_ms outside
          ≡ some (applications pairs, evidence))
      × (evidence.attempts ≡ proxy_attempts pairs)
      × IsRun is_reached pair proxy.addresses pairs
      × ((address : SocketAddr)
          → (round readers decode version target proxy timeout_ms address (outside address)
              ≡ some (pair address))
            × ArePaired address (pair address))
unfolding probe_via_proxy
probe_via_proxy-ArePaired readers decode version target proxy timeout_ms outside host probed there =
    let paired = λ (address : SocketAddr).
      round-ArePaired readers decode version target proxy timeout_ms probed host there address
        (outside address) in
    let pair = λ (address : SocketAddr). (paired address).0 in
    let pairs = until is_reached pair proxy.addresses in
    (
      pair,
      pairs,
      evidence_of proxy (proxy_attempts pairs),
      ap (map_option (λ (ps : List Pair). (applications ps, evidence_of proxy (proxy_attempts ps))))
          (until-some _ pair (λ address. (paired address).1) proxy.addresses),
      refl,
      until-IsRun is_reached pair proxy.addresses,
      λ address. ((paired address).1, (paired address).2),
    )
