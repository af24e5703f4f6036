-- ===== src/Pipeline.antt =====
-- src/lib.rs: a diagnosis from its arguments to its report. The probes of src/probe/route.rs and
-- src/probe/path.rs and the plugins of src/plugin.rs come in by their results.
pub mod Variables
pub mod Diagnosed
pub mod Hidden
pub mod Shown
use netwhy.Prelude.{
  ℕ, ltb, Bool, true, false, String, Option, none, some, List, [], length, if◌then◌else◌, str_eq,
  is_some, map_option, and_then,
}
use netwhy.Prelude.Results.{Result, on_ok}
use netwhy.Net.{SocketAddr, IpAddr}
use netwhy.Model.{
  Status, ToolInfo, ExecutionContextInfo, TargetReport, RequestInfo, DnsResult, RouteResult,
  TcpResult, ApplicationReport, ProxyVariable, ProxyTransportEvidence, PathEvidence, PluginResult,
  DiagnosticReport, AddressFamilySelection, default_diagnosis, schema_version,
}
use netwhy.Dns.{resolve, Lookup}
use netwhy.Tcp.{Task, Pool, Connection, connect_all}
use netwhy.Diagnosis.{explain}
use netwhy.Url.{Url, Readers}
use netwhy.Target.{Target, parse_target, original_report_value, url_report_value}
use netwhy.Proxy.{SelectedProxy, ProxyPlan, ProxyLookup}
use netwhy.Proxy.Bypass.{Environment, variable}
use netwhy.Proxy.Plan.{ProxyMode, ProxyArgs, plan, validate_args, selected_family}
use netwhy.ApplicationProbe.Attempt.{Run, Opening}
use netwhy.ApplicationProbe.Loop.{ProxyRun, probe, probe_via_proxy}
use netwhy.Pipeline.Variables.{proxy_environment_from_lookup, report_proxy_variables}

-- The options of a diagnosis
pub record Cli : Type 0 where
  pub target : String
  pub timeout_ms : ℕ
  pub plugin : List String
  pub diagnostic : ProxyArgs

pub record DiagnosticContext : Type 0 where
  pub execution : ExecutionContextInfo
  pub proxies : List ProxyVariable
  pub proxy_environment : Environment

unfoldable pub selected_process : ExecutionContextInfo → Environment → DiagnosticContext
unfolding report_proxy_variables proxy_environment_from_lookup variable
selected_process execution environment =
    let kept = proxy_environment_from_lookup (λ name. variable name environment) in
    record {
      execution = execution;
      proxies = report_proxy_variables kept;
      proxy_environment = kept;
    }

-- What the outside gives a diagnosis: the readers and the build's names, the times, the answers of the
-- resolver, how connections go, and what the probes that are not modelled find.
pub record Outside : Type 0 where
  pub readers : Readers
  pub decode : String → String
  pub tool : ToolInfo
  pub generated_at_unix_ms : ℕ
  pub duration_ms : ℕ
  pub resolve_ms : ℕ
  pub lookup : Lookup
  pub connect_ms : Task → ℕ
  pub connections : Task → Option Connection
  pub choose : Pool → ℕ
  pub routes : List SocketAddr → List RouteResult
  pub path : List SocketAddr → List RouteResult → PathEvidence
  pub plugins : Target → Result (List PluginResult)
  pub proxy_lookup : String → ℕ → ProxyLookup
  pub direct : SocketAddr → Run × Opening
  pub proxied : SocketAddr → ProxyRun

abbrev pub max_plugins : ℕ
max_plugins = 8

unfoldable pub validate_options : Readers → Cli → Result (Option Url)
unfolding validate_args
validate_options readers cli =
    if ltb max_plugins (length cli.plugin)
    then Result.err "at most 8 --plugin options may be used"
    else validate_args readers cli.diagnostic

-- `TargetReport::from`
unfoldable pub target_report : Readers → Target → TargetReport
unfolding original_report_value url_report_value
target_report readers target = record {
  original = original_report_value target;
  scheme = target.scheme;
  host = target.host;
  port = target.port;
  url = map_option (λ _. url_report_value readers target) target.url;
}

abbrev pub resolve_target : Outside → Cli → Target → DnsResult
resolve_target o cli target =
    resolve o.resolve_ms target.literal_address (o.readers.read_ip target.host) target.port o.lookup
      cli.diagnostic.ipv4 cli.diagnostic.ipv6 cli.timeout_ms

-- The probe of the application that the plan asks for, with the evidence on the proxy where the probe
-- has it; `none` is a panic of the probe.
abbrev pub probe_planned :
    Outside
    → Cli
    → Target
    → List TcpResult
    → ProxyPlan
    → Option (List ApplicationReport × Option ProxyTransportEvidence)
probe_planned o cli target tcp (ProxyPlan.direct evidence) =
    some (probe o.tool.version target tcp cli.timeout_ms o.direct, none)
probe_planned o cli target tcp (ProxyPlan.proxy proxy) =
    map_option (λ (p : List ApplicationReport × ProxyTransportEvidence). (p.0, some p.1))
      (probe_via_proxy o.readers o.decode o.tool.version target proxy cli.timeout_ms o.proxied)
probe_planned o cli target tcp (ProxyPlan.unavailable evidence) = some ([], none)

-- `proxy_transport`; `none` is the panic of `unreachable!`.
abbrev pub transport : ProxyPlan → Option ProxyTransportEvidence → Option ProxyTransportEvidence
transport planned (some evidence) = some evidence
transport (ProxyPlan.direct evidence) none = some evidence
transport (ProxyPlan.unavailable evidence) none = some evidence
transport (ProxyPlan.proxy proxy) none = none

abbrev pub mode_text : ProxyMode → String
mode_text ProxyMode.environment = "environment"
mode_text ProxyMode.direct = "direct"

abbrev pub proxy_mode : ProxyArgs → String
proxy_mode args = if is_some args.proxy_url then "explicit" else mode_text args.proxy_mode

abbrev pub request_info : Cli → DiagnosticContext → ProxyTransportEvidence → RequestInfo
request_info cli context evidence = record {
  timeout_ms = cli.timeout_ms;
  address_family = selected_family cli.diagnostic;
  application_transport = if str_eq evidence.mode "proxy" then "proxy" else "direct";
  proxy_mode = proxy_mode cli.diagnostic;
  redaction = "standard";
  execution_context = context.execution;
}

-- The report before the diagnosis
abbrev pub draft :
    Outside
    → Cli
    → DiagnosticContext
    → Target
    → DnsResult
    → List TcpResult
    → List ApplicationReport × ProxyTransportEvidence
    → List PluginResult
    → DiagnosticReport
draft o cli context target dns tcp (attempts, evidence) plugins = record {
  schema_version = schema_version;
  kind = "diagnostic_report";
  tool = o.tool;
  generated_at_unix_ms = o.generated_at_unix_ms;
  duration_ms = o.duration_ms;
  request = request_info cli context evidence;
  target = target_report o.readers target;
  dns = dns;
  routes = o.routes dns.addresses;
  tcp = tcp;
  application_attempts = attempts;
  proxies = context.proxies;
  proxy_transport = evidence;
  path_evidence = o.path dns.addresses (o.routes dns.addresses);
  plugins = plugins;
  diagnosis = default_diagnosis;
  overall = Status.skip;
  exit_code = 2;
}

-- The report that is made of the evidence. A panic is `none`.
abbrev pub explained :
    Outside
    → Cli
    → DiagnosticContext
    → Target
    → List TcpResult
    → List PluginResult
    → List ApplicationReport
    → ProxyTransportEvidence
    → Option (Result DiagnosticReport)
explained o cli context target tcp plugins attempts evidence =
    map_option (λ (r : DiagnosticReport). Result.ok r)
      (explain
        (draft o cli context target (resolve_target o cli target) tcp (attempts, evidence) plugins))

abbrev pub with_plugins :
    Outside
    → Cli
    → DiagnosticContext
    → Target
    → List TcpResult
    → ProxyPlan
    → Result (List PluginResult)
    → List ApplicationReport × Option ProxyTransportEvidence
    → Option (Result DiagnosticReport)
with_plugins o cli context target tcp planned (Result.ok plugins) (attempts, probed) =
    and_then (transport planned probed) (explained o cli context target tcp plugins attempts)
with_plugins o cli context target tcp planned (Result.err error) probed = some (Result.err error)

abbrev pub with_plan :
    Outside
    → Cli
    → DiagnosticContext
    → Target
    → List TcpResult
    → Option (Result ProxyPlan)
    → Option (Result DiagnosticReport)
with_plan o cli context target tcp none = none
with_plan o cli context target tcp (some (Result.ok planned)) =
    and_then (probe_planned o cli target tcp planned)
      (with_plugins o cli context target tcp planned (o.plugins target))
with_plan o cli context target tcp (some (Result.err error)) = some (Result.err error)

abbrev pub with_tcp :
    Outside
    → Cli
    → DiagnosticContext
    → Target
    → Option (List TcpResult)
    → Option (Result DiagnosticReport)
with_tcp o cli context target none = none
with_tcp o cli context target (some tcp) =
    with_plan o cli context target tcp
      (plan o.readers cli.diagnostic target context.proxy_environment cli.timeout_ms o.proxy_lookup)

abbrev pub with_target :
    Outside → Cli → DiagnosticContext → Result Target → Option (Result DiagnosticReport)
with_target o cli context (Result.err error) = some (Result.err error)
with_target o cli context (Result.ok target) = with_tcp o cli context target (
    connect_all o.connect_ms cli.timeout_ms o.connections o.choose
      (resolve_target o cli target).addresses)

abbrev pub after_validation :
    Outside → Cli → DiagnosticContext → Result (Option Url) → Option (Result DiagnosticReport)
after_validation o cli context (Result.err error) = some (Result.err error)
after_validation o cli context (Result.ok valid) =
    with_target o cli context (parse_target o.readers cli.target)

unfoldable pub diagnose_with_context :
    Outside → Cli → DiagnosticContext → Option (Result DiagnosticReport)
unfolding validate_options parse_target plan probe probe_via_proxy resolve connect_all explain
diagnose_with_context o cli context =
    after_validation o cli context (validate_options o.readers cli)
