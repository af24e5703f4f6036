-- ===== src/Tests/Samples.antt =====
-- Reports, attempts and addresses for the tests.
use netwhy.Prelude.{ℕ, false, Option, none, some, String, List, [], ◌∷◌}
use netwhy.Net.{SocketAddr}
use netwhy.Model.{
  Status, AddressFamilySelection, TcpResult, ApplicationReport, ApplicationConnectResult,
  HttpResult, DiagnosticReport, current_context, default_proxy_transport, default_path_evidence,
  default_diagnosis, family_of,
}

-- 192.0.2.1, 192.0.2.2 and 2001:db8::1, on port 443
abbrev pub first_v4 : SocketAddr
first_v4 = SocketAddr.v4 0xc0000201 443

abbrev pub second_v4 : SocketAddr
second_v4 = SocketAddr.v4 0xc0000202 443

abbrev pub only_v6 : SocketAddr
only_v6 = SocketAddr.v6 0x20010db8000000000000000000000001 443 0 0

abbrev pub connected : SocketAddr → TcpResult
connected address = record {
  status = Status.pass;
  address = address;
  family = family_of address;
  duration_ms = 1;
  error_kind = none;
  error = none;
}

abbrev pub timed_out : SocketAddr → TcpResult
timed_out address = record {
  status = Status.fail;
  address = address;
  family = family_of address;
  duration_ms = 3000;
  error_kind = some "timeout";
  error = some "connection timed out after 3000 ms";
}

abbrev pub connect_result : Status → Option String → ApplicationConnectResult
connect_result status error = record {
  status = status;
  duration_ms = 1;
  error_kind = none;
  error = error;
}

abbrev pub http_result : Status → Option ℕ → Option String → HttpResult
http_result status code error = record {
  status = status;
  duration_ms = 1;
  status_code = code;
  status_line = none;
  error = error;
}

abbrev pub refused_attempt : SocketAddr → ApplicationReport
refused_attempt address = record {
  status = Status.fail;
  protocol = "http";
  address = address;
  connect = connect_result Status.fail (some "refused");
  tls = none;
  http = none;
}

abbrev pub broken_attempt : SocketAddr → ApplicationReport
broken_attempt address = record {
  status = Status.fail;
  protocol = "http";
  address = address;
  connect = connect_result Status.pass none;
  tls = none;
  http = some (http_result Status.fail none (some "closed"));
}

abbrev pub answered_attempt : SocketAddr → ℕ → ApplicationReport
answered_attempt address code = record {
  status = Status.warn;
  protocol = "http";
  address = address;
  connect = connect_result Status.pass none;
  tls = none;
  http = some (http_result Status.warn (some code) none);
}

abbrev pub report_of : List TcpResult → List ApplicationReport → DiagnosticReport
report_of tcp attempts = record {
  schema_version = 2;
  kind = "diagnostic_report";
  tool = record { name = "netwhy"; version = "0.4.0" };
  generated_at_unix_ms = 1;
  duration_ms = 2;
  request = record {
    timeout_ms = 3000;
    address_family = AddressFamilySelection.any;
    application_transport = "direct";
    proxy_mode = "direct";
    redaction = "standard";
    execution_context = current_context;
  };
  target = record {
    original = "https://example.com";
    scheme = "https";
    host = "example.com";
    port = 443;
    url = some "https://example.com/";
  };
  dns = record {
    status = Status.pass;
    duration_ms = 1;
    addresses = first_v4 ∷ [];
    truncated = false;
    error_kind = none;
    error = none;
  };
  routes = [];
  tcp = tcp;
  application_attempts = attempts;
  proxies = [];
  proxy_transport = default_proxy_transport;
  path_evidence = default_path_evidence;
  plugins = [];
  diagnosis = default_diagnosis;
  overall = Status.pass;
  exit_code = 0;
}

-- The same run through a proxy.
abbrev pub proxied : Status → DiagnosticReport → DiagnosticReport
proxied status r = record r {
  request = record r.request { proxy_mode = "explicit" };
  proxy_transport = record default_proxy_transport { status = status; mode = "proxy" };
}
