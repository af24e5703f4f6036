-- ===== src/Redaction/Forget.antt =====
-- What src/redaction.rs keeps from a reader.
use netwhy.Prelude.{◌≡◌, refl, String, Option, none, some, [], map, map_option}
use netwhy.Net.{IpAddr}
use netwhy.Json.{Value}
use netwhy.Model.{
  DiagnosticReport, RouteResult, TcpResult, ApplicationReport, TlsResult, HttpResult,
  ProxyConnectResult, PluginResult, MtuResult, FirewallMatch,
}
use netwhy.Redaction.{
  RedactionLevel, apply, redact_optional_error, redact_route, redact_tcp, redact_application,
  redact_proxy_attempt, redact_mtu, redact_rule, redacted_cause, redacted_url, redact_plugin,
  redact_tls, redact_http, redact_match,
}
use netwhy.Redaction.Addresses.{map-map_eq}

-- A text that is there, without what it says.
abbrev pub forget_text : Option String → Option String
forget_text = map_option (λ _. "")

redact_optional_error-forget_text :
    (o : Option String) → redact_optional_error (forget_text o) ≡ redact_optional_error o
redact_optional_error-forget_text none = refl
redact_optional_error-forget_text (some error) = refl

abbrev forget_route : RouteResult → RouteResult
forget_route r = record r { error = forget_text r.error }

abbrev forget_tcp : TcpResult → TcpResult
forget_tcp t = record t { error = forget_text t.error }

abbrev forget_http : HttpResult → HttpResult
forget_http h = record h { error = forget_text h.error }

abbrev forget_tls : TlsResult → TlsResult
forget_tls t = record t { error = forget_text t.error }

abbrev forget_application : ApplicationReport → ApplicationReport
forget_application a = record a {
  connect = record a.connect { error = forget_text a.connect.error };
  tls = map_option forget_tls a.tls;
  http = map_option forget_http a.http;
}

abbrev forget_proxy_attempt : ProxyConnectResult → ProxyConnectResult
forget_proxy_attempt a = record a { error = forget_text a.error }

abbrev forget_mtu : MtuResult → MtuResult
forget_mtu m = record m { error = forget_text m.error }

abbrev forget_match : FirewallMatch → FirewallMatch
forget_match m = record m { comment = forget_text m.comment }

abbrev forget_rule : String → String
forget_rule rule = ""

-- The name of a plugin is shown as a pseudonym; the rest of what it says goes.
abbrev forget_plugin : PluginResult → PluginResult
forget_plugin p = record p {
  summary = "";
  evidence = Value.null;
  error_kind = forget_text p.error_kind;
  error = forget_text p.error;
}

-- The report without what the errors, the rules, the plugins, the cause, the notes, the URL and the
-- process of the target say.
abbrev pub forget : DiagnosticReport → DiagnosticReport
forget r =
    let e = r.path_evidence in
    record r {
      target = record r.target { original = ""; url = forget_text r.target.url };
      request = record r.request {
        redaction = "";
        execution_context = record r.request.execution_context {
          target_pid = map_option (λ _. 0) r.request.execution_context.target_pid;
          proxy_error = forget_text r.request.execution_context.proxy_error;
        };
      };
      dns = record r.dns { error = forget_text r.dns.error };
      routes = map forget_route r.routes;
      tcp = map forget_tcp r.tcp;
      application_attempts = map forget_application r.application_attempts;
      proxy_transport = record r.proxy_transport {
        error = forget_text r.proxy_transport.error;
        attempts = map forget_proxy_attempt r.proxy_transport.attempts;
      };
      path_evidence = record e {
        firewall = record e.firewall {
          matches = map forget_match e.firewall.matches;
          error = forget_text e.firewall.error;
        };
        mtu = map forget_mtu e.mtu;
        address_preference = record e.address_preference {
          error = forget_text e.address_preference.error;
          policy_rules = map forget_rule e.address_preference.policy_rules;
        };
        resolver = record e.resolver { error = forget_text e.resolver.error };
        network_manager = record e.network_manager { error = forget_text e.network_manager.error };
      };
      plugins = map forget_plugin r.plugins;
      diagnosis = record r.diagnosis {
        likely_cause = forget_text r.diagnosis.likely_cause;
        notes = [];
      };
    }

map_option-const :
    {A : Type 0} (a b : A) (o : Option A)
    → map_option (λ _. b) (map_option (λ _. a) o) ≡ map_option (λ _. b) o
map_option-const a b none = refl
map_option-const a b (some x) = refl

redact-forget_tls :
    (parse : String → Option IpAddr) (o : Option TlsResult)
    → map_option (redact_tls parse) (map_option forget_tls o) ≡ map_option (redact_tls parse) o
redact-forget_tls parse none = refl
redact-forget_tls parse (some t) = rw (redact_optional_error-forget_text t.error) refl

redact-forget_http :
    (o : Option HttpResult)
    → map_option redact_http (map_option forget_http o) ≡ map_option redact_http o
redact-forget_http none = refl
redact-forget_http (some h) = rw (redact_optional_error-forget_text h.error) refl

module _ (parse : String → Option IpAddr) (r : DiagnosticReport) where
  routes_eq :
      map (redact_route parse) (map forget_route r.routes) ≡ map (redact_route parse) r.routes
  routes_eq =
      map-map_eq (redact_route parse) forget_route (redact_route parse) r.routes
        (λ x. rw (redact_optional_error-forget_text x.error) refl)

  tcp_eq : map redact_tcp (map forget_tcp r.tcp) ≡ map redact_tcp r.tcp
  tcp_eq =
      map-map_eq redact_tcp forget_tcp redact_tcp r.tcp
        (λ x. rw (redact_optional_error-forget_text x.error) refl)

  applications_eq :
      map (redact_application parse) (map forget_application r.application_attempts)
      ≡ map (redact_application parse) r.application_attempts
  applications_eq =
      map-map_eq (redact_application parse) forget_application (redact_application parse)
        r.application_attempts
        (λ x.
          rw
            (
              redact_optional_error-forget_text x.connect.error,
              redact-forget_tls parse x.tls,
              redact-forget_http x.http,
            )
            refl)

  proxy_attempts_eq :
      map redact_proxy_attempt (map forget_proxy_attempt r.proxy_transport.attempts)
      ≡ map redact_proxy_attempt r.proxy_transport.attempts
  proxy_attempts_eq =
      map-map_eq redact_proxy_attempt forget_proxy_attempt redact_proxy_attempt
        r.proxy_transport.attempts (λ x. rw (redact_optional_error-forget_text x.error) refl)

  plugins_eq : map redact_plugin (map forget_plugin r.plugins) ≡ map redact_plugin r.plugins
  plugins_eq = map-map_eq redact_plugin forget_plugin redact_plugin r.plugins (λ x.
      rw (redact_optional_error-forget_text x.error_kind, redact_optional_error-forget_text x.error)
        refl)

  matches_eq :
      map redact_match (map forget_match r.path_evidence.firewall.matches)
      ≡ map redact_match r.path_evidence.firewall.matches
  matches_eq =
      map-map_eq redact_match forget_match redact_match r.path_evidence.firewall.matches
        (λ x. rw (redact_optional_error-forget_text x.comment) refl)

  mtu_eq : map redact_mtu (map forget_mtu r.path_evidence.mtu) ≡ map redact_mtu r.path_evidence.mtu
  mtu_eq =
      map-map_eq redact_mtu forget_mtu redact_mtu r.path_evidence.mtu
        (λ x. rw (redact_optional_error-forget_text x.error) refl)

  rules_eq :
      map redact_rule (map forget_rule r.path_evidence.address_preference.policy_rules)
      ≡ map redact_rule r.path_evidence.address_preference.policy_rules
  rules_eq = map-map_eq redact_rule forget_rule redact_rule _ (λ x. refl)

  -- Under the strict policy the report that is shown does not depend on what the errors, the policy
  -- rules, the comments of the firewall, the plugins but for their names and statuses, the likely cause,
  -- the notes, the original target and its URL say, nor on the process that was asked for.
  pub apply-forget :
      apply parse RedactionLevel.strict (forget r) ≡ apply parse RedactionLevel.strict r
  unfolding apply
  apply-forget =
      rw
        (
          routes_eq,
          tcp_eq,
          applications_eq,
          proxy_attempts_eq,
          plugins_eq,
          matches_eq,
          mtu_eq,
          rules_eq,
          map_option-const 0 1 r.request.execution_context.target_pid,
          map_option-const "" (redacted_url r.target) r.target.url,
          map_option-const "" redacted_cause r.diagnosis.likely_cause,
          redact_optional_error-forget_text r.request.execution_context.proxy_error,
          redact_optional_error-forget_text r.dns.error,
          redact_optional_error-forget_text r.proxy_transport.error,
          redact_optional_error-forget_text r.path_evidence.firewall.error,
          redact_optional_error-forget_text r.path_evidence.address_preference.error,
          redact_optional_error-forget_text r.path_evidence.resolver.error,
          redact_optional_error-forget_text r.path_evidence.network_manager.error,
        )
        refl
