-- ===== src/ApplicationProbe/Attempt.antt =====
-- One attempt of src/probe/application.rs, over HTTP or HTTPS, on the address of a TCP result or through a
-- proxy. What the connection and the TLS handshake come to is an argument.
use netwhy.Prelude.{
  ℕ, Bool, ◌||◌, String, ◌<>◌, Option, none, some, List, [], if◌then◌else◌, str_eq, decimal,
}
use netwhy.Net.{SocketAddr}
use netwhy.Model.{
  Status, HttpResult, ApplicationConnectResult, ApplicationReport, TlsResult, CertificateInfo,
}
use netwhy.Sanitize.{sanitize_report_text}
use netwhy.Tcp.{error_kind}
use netwhy.Url.{Readers}
use netwhy.Target.{Target}
use netwhy.Proxy.{SelectedProxy}
use netwhy.Proxy.Base64.{basic_authorization}
use netwhy.ApplicationProbe.Stream.{IoError, Stream}
use netwhy.ApplicationProbe.Http.{http_exchange, http_exchange_proxy}

-- What a TCP connection comes to within its time.
pub data Opening : Type 0 where
  opened : Stream → Opening
  refused : IoError → Opening
  expired : Opening

-- What a TLS handshake tells of the session.
pub record Session : Type 0 where
  pub version : Option String
  pub cipher_suite : Option String
  pub peer_certificates : List CertificateInfo

-- What a TLS handshake comes to within its time; it may be refused for the name of the server.
pub data Handshake : Type 0 where
  agreed : Session → Stream → Handshake
  bad_name failed : String → Handshake
  expired : Handshake

-- What the outside gives an attempt: the times, the handshake, and whether the exchange runs out of time.
pub record Run : Type 0 where
  pub connect_ms : ℕ
  pub handshake : Handshake
  pub handshake_ms : ℕ
  pub http_ms : ℕ
  pub http_expired : Bool

abbrev pub successful_connect : ℕ → ApplicationConnectResult
successful_connect duration_ms = record {
  status = Status.pass;
  duration_ms = duration_ms;
  error_kind = none;
  error = none;
}

unfoldable pub connect_failure : String → SocketAddr → ℕ → String → String → ApplicationReport
unfolding sanitize_report_text
connect_failure protocol address duration_ms kind error = record {
  status = Status.fail;
  protocol = protocol;
  address = address;
  connect = record {
    status = Status.fail;
    duration_ms = duration_ms;
    error_kind = some kind;
    error = some (sanitize_report_text error);
  };
  tls = none;
  http = none;
}

unfoldable pub tls_failure :
    SocketAddr → ApplicationConnectResult → ℕ → String → String → ApplicationReport
unfolding sanitize_report_text
tls_failure address connect handshake_ms trust_source error = record {
  status = Status.fail;
  protocol = "https";
  address = address;
  connect = connect;
  tls = some (record {
    status = Status.fail;
    handshake_ms = handshake_ms;
    trust_source = trust_source;
    version = none;
    cipher_suite = none;
    peer_certificates = [];
    error = some (sanitize_report_text error);
  });
  http = none;
}

abbrev tls_success : ℕ → String → Session → TlsResult
tls_success handshake_ms trust_source session = record {
  status = Status.pass;
  handshake_ms = handshake_ms;
  trust_source = trust_source;
  version = session.version;
  cipher_suite = session.cipher_suite;
  peer_certificates = session.peer_certificates;
  error = none;
}

-- The report of an attempt that got as far as the exchange.
abbrev pub report_of :
    String
    → SocketAddr
    → ApplicationConnectResult
    → Option TlsResult
    → HttpResult
    → ApplicationReport
report_of protocol address connect tls http = record {
  status = http.status;
  protocol = protocol;
  address = address;
  connect = connect;
  tls = tls;
  http = some http;
}

abbrev pub trust_source : String
trust_source = "mozilla_webpki_roots"

-- `probe_https_stream`: TLS on a connection, and the exchange; `version` is that of the package.
unfoldable pub probe_https_stream :
    String
    → Target
    → SocketAddr
    → ApplicationConnectResult
    → ℕ
    → Run
    → Handshake
    → ApplicationReport
unfolding http_exchange tls_failure
probe_https_stream version target address connect timeout_ms run (Handshake.bad_name error) =
    tls_failure address connect 0 trust_source ("invalid TLS server name: " <> error)
probe_https_stream version target address connect timeout_ms run (Handshake.failed error) =
    tls_failure address connect run.handshake_ms trust_source error
probe_https_stream version target address connect timeout_ms run Handshake.expired =
    tls_failure address connect run.handshake_ms trust_source
      ("TLS handshake timed out after " <> (decimal timeout_ms <> " ms"))
probe_https_stream version target address connect timeout_ms run (Handshake.agreed session stream) =
    report_of "https" address connect (some (tls_success run.handshake_ms trust_source session))
      (http_exchange version target run.http_ms timeout_ms run.http_expired stream)

-- `probe_https_with_connection`
unfoldable pub probe_https : String → Target → SocketAddr → ℕ → Run → Opening → ApplicationReport
unfolding probe_https_stream connect_failure
probe_https version target address timeout_ms run (Opening.opened stream) =
    probe_https_stream version target address (successful_connect run.connect_ms) timeout_ms run
      run.handshake
probe_https version target address timeout_ms run (Opening.refused e) =
    connect_failure "https" address run.connect_ms (error_kind e.kind) e.text
probe_https version target address timeout_ms run Opening.expired =
    connect_failure "https" address run.connect_ms "timeout"
      ("TCP connection timed out after " <> (decimal timeout_ms <> " ms"))

-- `probe_http_with_connection`
unfoldable pub probe_http : String → Target → SocketAddr → ℕ → Run → Opening → ApplicationReport
unfolding http_exchange connect_failure
probe_http version target address timeout_ms run (Opening.opened stream) =
    report_of "http" address (successful_connect run.connect_ms) none
      (http_exchange version target run.http_ms timeout_ms run.http_expired stream)
probe_http version target address timeout_ms run (Opening.refused e) =
    connect_failure "http" address run.connect_ms (error_kind e.kind) e.text
probe_http version target address timeout_ms run Opening.expired =
    connect_failure "http" address run.connect_ms "timeout"
      ("HTTP connection timed out after " <> (decimal timeout_ms <> " ms"))

abbrev pub is_http_proxy : SelectedProxy → Bool
is_http_proxy proxy = str_eq proxy.url.scheme "http" || str_eq proxy.url.scheme "https"

-- The exchange with an HTTP target: a forwarding proxy gets the whole URI and the login.
abbrev forward :
    Readers → (String → String) → String → Target → SelectedProxy → ℕ → Run → Stream → HttpResult
forward readers decode version target proxy timeout_ms run stream =
    if is_http_proxy proxy
    then http_exchange_proxy readers version target (basic_authorization decode proxy.url)
        run.http_ms timeout_ms run.http_expired stream
    else http_exchange version target run.http_ms timeout_ms run.http_expired stream

-- The match on the target's scheme; `none` is the panic of `unreachable!`.
unfoldable pub probe_proxy_application :
    Readers
    → (String → String)
    → String
    → Target
    → SelectedProxy
    → SocketAddr
    → ApplicationConnectResult
    → ℕ
    → Run
    → Stream
    → Option ApplicationReport
unfolding probe_https_stream http_exchange http_exchange_proxy basic_authorization
probe_proxy_application readers decode version target proxy address connect timeout_ms run stream =
    if str_eq target.scheme "tcp"
    then some (record {
      status = Status.pass;
      protocol = "tcp";
      address = address;
      connect = connect;
      tls = none;
      http = none;
    })
    else if str_eq target.scheme "https"
    then some (probe_https_stream version target address connect timeout_ms run run.handshake)
    else if str_eq target.scheme "http"
    then some (
        report_of "http" address connect none
          (forward readers decode version target proxy timeout_ms run stream))
    else none
