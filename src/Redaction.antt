-- ===== src/Redaction.antt =====
-- src/redaction.rs: the policies for what a report shows. How the standard library reads an IP
-- address is an argument.
pub mod Hash
pub mod Texts
pub mod Addresses
pub mod Forget
pub mod Verdict
use netwhy.Prelude.{
  ℕ, Bool, true, false, String, ◌<>◌, Option, none, some, List, [], ◌∷◌, map, map_option, decimal,
}
use netwhy.Net.{SocketAddr, IpAddr}
use netwhy.Json.{Value, Members}
use netwhy.Model.{
  Status, DiagnosticReport, RequestInfo, ExecutionContextInfo, TargetReport, DnsResult, RouteResult,
  TcpResult, ApplicationReport, ApplicationConnectResult, TlsResult, CertificateInfo, HttpResult,
  ProxyVariable, ProxyTransportEvidence, ProxyConnectResult, PathEvidence, FirewallMatch, MtuResult,
  ResolverLink, ActiveConnection, PluginResult, Diagnosis,
}
use netwhy.Redaction.Hash.{
  stable_hash, hex_16, pseudonym, redact_ip, redact_socket, redact_address_text,
}

-- `RedactionLevel` of src/cli.rs
pub data RedactionLevel : Type 0 where
  standard strict : RedactionLevel

abbrev pub level_name : RedactionLevel → String
level_name RedactionLevel.standard = "standard"
level_name RedactionLevel.strict = "strict"

abbrev pub redact_optional_error : Option String → Option String
redact_optional_error none = none
redact_optional_error (some error) = some "REDACTED"

abbrev redacted_domain : String → String → String
redacted_domain kind value = pseudonym kind value <> ".redacted"

-- `scheme://host:port`
abbrev origin : String → String → ℕ → String
origin scheme host port = scheme <> ("://" <> (host <> (":" <> decimal port)))

abbrev pub redacted_url : TargetReport → String
redacted_url t = origin t.scheme (redacted_domain "host" t.host) t.port <> "/REDACTED"

unfoldable pub redact_target : TargetReport → TargetReport
redact_target t =
    let host = redacted_domain "host" t.host in
    record t {
      host = host;
      original = origin t.scheme host t.port;
      url = map_option (λ _. redacted_url t) t.url;
    }

unfoldable pub redact_context : ExecutionContextInfo → ExecutionContextInfo
redact_context c = record c {
  target_container = map_option (pseudonym "container") c.target_container;
  target_pid = map_option (λ _. 1) c.target_pid;
  proxy_error = redact_optional_error c.proxy_error;
}

unfoldable pub redact_report_identity : DiagnosticReport → DiagnosticReport
unfolding redact_target redact_context
redact_report_identity r = record r {
  target = redact_target r.target;
  request = record r.request { execution_context = redact_context r.request.execution_context };
}

abbrev pub redact_tcp : TcpResult → TcpResult
redact_tcp t = record t { address = redact_socket t.address; error = redact_optional_error t.error }

abbrev pub redact_http : HttpResult → HttpResult
redact_http h = record h { error = redact_optional_error h.error }

abbrev pub redact_plugin : PluginResult → PluginResult
redact_plugin p = record p {
  name = pseudonym "plugin" p.name;
  summary = "Plugin summary redacted by strict report policy.";
  evidence = Value.object (Members.member "redacted" (Value.bool true) Members.end);
  error_kind = redact_optional_error p.error_kind;
  error = redact_optional_error p.error;
}

abbrev pub redacted_cause : String
redacted_cause = "Cause details were redacted by the strict report policy."

unfoldable pub redact_plugins_and_diagnosis : DiagnosticReport → DiagnosticReport
redact_plugins_and_diagnosis r = record r {
  plugins = map redact_plugin r.plugins;
  diagnosis = record r.diagnosis {
    likely_cause = map_option (λ _. redacted_cause) r.diagnosis.likely_cause;
    notes = "Sensitive context details were pseudonymized by strict report redaction." ∷ [];
  };
}

abbrev pub redact_proxy_attempt : ProxyConnectResult → ProxyConnectResult
redact_proxy_attempt a = record a {
  address = redact_socket a.address;
  error = redact_optional_error a.error;
}

unfoldable pub redact_proxy_evidence : DiagnosticReport → DiagnosticReport
redact_proxy_evidence r = record r {
  proxies = map (λ (p : ProxyVariable). record p { value = pseudonym "proxy" p.value }) r.proxies;
  proxy_transport = record r.proxy_transport {
    selected_proxy = map_option (pseudonym "proxy") r.proxy_transport.selected_proxy;
    error = redact_optional_error r.proxy_transport.error;
    attempts = map redact_proxy_attempt r.proxy_transport.attempts;
  };
}

abbrev pub redact_match : FirewallMatch → FirewallMatch
redact_match m = record m {
  table = pseudonym "table" m.table;
  chain = pseudonym "chain" m.chain;
  comment = redact_optional_error m.comment;
}

abbrev pub redact_rule : String → String
redact_rule rule = "REDACTED"

abbrev pub redact_mtu : MtuResult → MtuResult
redact_mtu m = record m { address = redact_socket m.address; error = redact_optional_error m.error }

abbrev pub redact_connection : ActiveConnection → ActiveConnection
redact_connection c = record c {
  name = pseudonym "connection" c.name;
  device = pseudonym "interface" c.device;
}

module _ (parse : String → Option IpAddr) where
  abbrev pub redact_route : RouteResult → RouteResult
  redact_route r = record r {
    address = redact_socket r.address;
    interface = map_option (pseudonym "interface") r.interface;
    gateway = map_option (redact_address_text parse) r.gateway;
    source = map_option (redact_address_text parse) r.source;
    error = redact_optional_error r.error;
  }

  unfoldable pub redact_certificate : CertificateInfo → CertificateInfo
  redact_certificate c =
      let hash = hex_16 (stable_hash c.sha256) in
      record c {
        subject = map_option (pseudonym "subject") c.subject;
        issuer = map_option (pseudonym "issuer") c.issuer;
        serial_number = map_option (pseudonym "serial") c.serial_number;
        sha256 = hash <> (hash <> (hash <> hash));
        dns_names = map (redacted_domain "dns") c.dns_names;
        ip_addresses = map (redact_address_text parse) c.ip_addresses;
      }

  abbrev pub redact_tls : TlsResult → TlsResult
  redact_tls t = record t {
    error = redact_optional_error t.error;
    peer_certificates = map redact_certificate t.peer_certificates;
  }

  abbrev pub redact_application : ApplicationReport → ApplicationReport
  redact_application a = record a {
    address = redact_socket a.address;
    connect = record a.connect { error = redact_optional_error a.connect.error };
    tls = map_option redact_tls a.tls;
    http = map_option redact_http a.http;
  }

  unfoldable pub redact_network_evidence : DiagnosticReport → DiagnosticReport
  unfolding redact_certificate
  redact_network_evidence r = record r {
    dns = record r.dns {
      addresses = map redact_socket r.dns.addresses;
      error = redact_optional_error r.dns.error;
    };
    routes = map redact_route r.routes;
    tcp = map redact_tcp r.tcp;
    application_attempts = map redact_application r.application_attempts;
  }

  abbrev pub redact_link : ResolverLink → ResolverLink
  redact_link l = record l {
    name = pseudonym "interface" l.name;
    servers = map (redact_address_text parse) l.servers;
    domains = map (redacted_domain "domain") l.domains;
  }

  unfoldable pub redact_path_evidence : PathEvidence → PathEvidence
  redact_path_evidence e = record e {
    firewall = record e.firewall {
      matches = map redact_match e.firewall.matches;
      relevant_base_chains = map (pseudonym "chain") e.firewall.relevant_base_chains;
      error = redact_optional_error e.firewall.error;
    };
    mtu = map redact_mtu e.mtu;
    address_preference = record e.address_preference {
      error = redact_optional_error e.address_preference.error;
      policy_rules = map redact_rule e.address_preference.policy_rules;
    };
    resolver = record e.resolver {
      error = redact_optional_error e.resolver.error;
      global_servers = map (redact_address_text parse) e.resolver.global_servers;
      global_domains = map (redacted_domain "domain") e.resolver.global_domains;
      links = map redact_link e.resolver.links;
    };
    network_manager = record e.network_manager {
      error = redact_optional_error e.network_manager.error;
      active_connections = map redact_connection e.network_manager.active_connections;
    };
  }

  abbrev named : RedactionLevel → DiagnosticReport → DiagnosticReport
  named level r = record r { request = record r.request { redaction = level_name level } }

  unfoldable pub apply : RedactionLevel → DiagnosticReport → DiagnosticReport
  unfolding redact_report_identity redact_network_evidence redact_proxy_evidence
      redact_path_evidence redact_plugins_and_diagnosis
  apply RedactionLevel.standard r = named RedactionLevel.standard r
  apply RedactionLevel.strict r =
      let shown =
        redact_proxy_evidence
          (redact_network_evidence (redact_report_identity (named RedactionLevel.strict r))) in
      redact_plugins_and_diagnosis
        (record shown { path_evidence = redact_path_evidence shown.path_evidence })
