-- ===== src/Pipeline/Diagnosed.antt =====
-- `diagnose_with_context` of src/lib.rs: what holds of every report that it returns.
use mathlib.Core.Path.{subst}
use netwhy.Prelude.{
  ◌≤◌, ◌≡◌, refl, sym, ap, ◌∙◌, Option, none, some, List, map, map_option, length, ◌↔◌, is_some,
  true, String, [],
}
use netwhy.Prelude.Results.{Result}
use netwhy.Net.Least.{AreDistinct}
use netwhy.Model.{
  TcpResult, ApplicationReport, ProxyTransportEvidence, PluginResult, DiagnosticReport, DnsResult,
}
use netwhy.Dns.{max_addresses}
use netwhy.Tcp.Resolved.{connect_all-resolve}
use netwhy.Diagnosis.Spec.{IsUnreachable}
use netwhy.Diagnosis.Verdict.{IsSound, explain-IsSound}
use netwhy.Diagnosis.Exit.{exit_code-explain}
use netwhy.Diagnosis.Frame.{explain_keeps_evidence, with_conclusion}
use netwhy.Url.{AreReaders, Url, Host, host_text}
use netwhy.Target.{Target, parse_target}
use netwhy.Target.Parsed.{IsTarget, parse_target-IsTarget}
use netwhy.Proxy.{ProxyPlan}
use netwhy.Proxy.Plan.{plan}
use netwhy.Proxy.Kept.{KeepsPlan, plan-KeepsPlan}
use netwhy.ApplicationProbe.Loop.{applications}
use netwhy.ApplicationProbe.Loop.Paired.{probe_via_proxy-ArePaired}
use netwhy.Pipeline.{
  Cli, DiagnosticContext, Outside, target_report, resolve_target, transport, draft, explained,
  with_plugins, with_plan, with_tcp, with_target, after_validation, validate_options,
  diagnose_with_context,
}

-- A report of a target that can be probed, with one TCP result for each resolved address in their order,
-- the conclusion that its own evidence names, and the exit code 1 exactly if nothing answered.
pub record IsDiagnosed (o : Outside) (cli : Cli) (r : DiagnosticReport) : Type 0 where
  pub target : Target
  pub parsed : parse_target o.readers cli.target ≡ Result.ok target
  pub can_probe : IsTarget target
  pub shown : r.target ≡ target_report o.readers target
  pub resolved : r.dns ≡ resolve_target o cli target
  pub in_order : map (λ (t : TcpResult). t.address) r.tcp ≡ r.dns.addresses
  pub distinct : AreDistinct (λ (t : TcpResult). t.address) r.tcp
  pub bounded : length r.tcp ≤ max_addresses
  pub evidence : DiagnosticReport
  pub sound : IsSound evidence r
  pub same_evidence : r ≡ with_conclusion evidence r
  pub exit : (r.exit_code ≡ 1) ↔ IsUnreachable evidence

-- An end without one of the modelled panics: an error, or a report that is diagnosed
abbrev pub Ends : Outside → Cli → Option (Result DiagnosticReport) → Type 0
Ends o cli none = ⊥
Ends o cli (some (Result.err error)) = Unit
Ends o cli (some (Result.ok r)) = IsDiagnosed o cli r

host_of :
    (host : Option Host)
    → is_some host ≡ true
    → (text : String) × (map_option host_text host ≡ some text)
host_of none h = absurd (cc)
host_of (some host) h = (host_text host, refl)

module _ (o : Outside) (cli : Cli) (context : DiagnosticContext) (law : AreReaders o.readers) where
  Ends-explained :
      (target : Target) (tcp : List TcpResult) (plugins : List PluginResult)
      (attempts : List ApplicationReport) (transport : ProxyTransportEvidence)
      → parse_target o.readers cli.target ≡ Result.ok target
      → map (λ (t : TcpResult). t.address) tcp ≡ (resolve_target o cli target).addresses
      → AreDistinct (λ (t : TcpResult). t.address) tcp
      → length tcp ≤ max_addresses
      → Ends o cli (explained o cli context target tcp plugins attempts transport)
  Ends-explained target tcp plugins attempts transport parsed order distinct few =
      let r =
        draft o cli context target (resolve_target o cli target) tcp (attempts, transport)
          plugins in
      let (r', e, sound) = explain-IsSound r in
      let kept = explain_keeps_evidence r r' e in
      let of_tcp : r'.tcp ≡ tcp = ap (λ (x : DiagnosticReport). x.tcp) kept in
      let of_dns : r'.dns ≡ resolve_target o cli target =
        ap (λ (x : DiagnosticReport). x.dns) kept in
      subst (Ends o cli) (ap (map_option (λ (x : DiagnosticReport). Result.ok x)) (sym e)) (record {
        target = target;
        parsed = parsed;
        can_probe = (parse_target-IsTarget o.readers law target cli.target parsed).0;
        shown = ap (λ (x : DiagnosticReport). x.target) kept;
        resolved = of_dns;
        in_order =
            ap (map (λ (t : TcpResult). t.address)) of_tcp
            ∙ order
            ∙ ap (λ (d : DnsResult). d.addresses) (sym of_dns);
        distinct = subst (AreDistinct (λ (t : TcpResult). t.address)) (sym of_tcp) distinct;
        bounded = subst (λ ts. length ts ≤ max_addresses) (sym of_tcp) few;
        evidence = r;
        sound = sound;
        same_evidence = kept;
        exit = exit_code-explain r r' e;
      })

  Ends-with_plugins :
      (target : Target) (tcp : List TcpResult) (planned : ProxyPlan)
      (plugins : Result (List PluginResult)) (attempts : List ApplicationReport)
      (probed : Option ProxyTransportEvidence) (evidence : ProxyTransportEvidence)
      → transport planned probed ≡ some evidence
      → ((ps : List PluginResult)
          → Ends o cli (explained o cli context target tcp ps attempts evidence))
      → Ends o cli (with_plugins o cli context target tcp planned plugins (attempts, probed))
  Ends-with_plugins target tcp planned (Result.err error) attempts probed evidence e h = tt
  Ends-with_plugins target tcp planned (Result.ok ps) attempts probed evidence e h = rw e (h ps)

  -- The target can be probed and the proxy has a host, so no panic is met.
  Ends-with_plan :
      (target : Target) (tcp : List TcpResult) (planned : Option (Result ProxyPlan))
      → IsTarget target
      → KeepsPlan cli.diagnostic planned
      → ((ps : List PluginResult) (attempts : List ApplicationReport)
            (evidence : ProxyTransportEvidence)
          → Ends o cli (explained o cli context target tcp ps attempts evidence))
      → Ends o cli (with_plan o cli context target tcp planned)
  Ends-with_plan target tcp none t k h = k
  Ends-with_plan target tcp (some (Result.err error)) t k h = tt
  Ends-with_plan target tcp (some (Result.ok (ProxyPlan.direct e))) t k h =
      Ends-with_plugins target tcp (ProxyPlan.direct e) (o.plugins target) _ none e refl
        (λ ps. h ps _ e)
  Ends-with_plan target tcp (some (Result.ok (ProxyPlan.unavailable e))) t k h =
      Ends-with_plugins target tcp (ProxyPlan.unavailable e) (o.plugins target) [] none e refl
        (λ ps. h ps [] e)
  Ends-with_plan target tcp (some (Result.ok (ProxyPlan.proxy proxy))) t k h =
      let (host, there) = host_of proxy.url.host k.host in
      let (pair, pairs, evidence, e, same, tried, rounds) =
        probe_via_proxy-ArePaired o.readers o.decode o.tool.version target proxy cli.timeout_ms
          o.proxied host t.scheme there in
      rw e (
        Ends-with_plugins target tcp (ProxyPlan.proxy proxy) (o.plugins target) (applications pairs)
          (some evidence) evidence refl (λ ps. h ps (applications pairs) evidence))

  Ends-with_target :
      (read : Result Target)
      → parse_target o.readers cli.target ≡ read
      → Ends o cli (with_target o cli context read)
  Ends-with_target (Result.err error) parsed = tt
  Ends-with_target (Result.ok target) parsed =
      let (tcp, e, order, distinct, few) =
        connect_all-resolve o.connect_ms cli.timeout_ms o.connections o.choose cli.diagnostic.ipv4
          cli.diagnostic.ipv6 o.resolve_ms target.literal_address (o.readers.read_ip target.host)
          target.port o.lookup in
      subst (λ t. Ends o cli (with_tcp o cli context target t)) (sym e)
        (Ends-with_plan target tcp
          (plan o.readers cli.diagnostic target context.proxy_environment cli.timeout_ms
            o.proxy_lookup)
          (parse_target-IsTarget o.readers law target cli.target parsed).0
          (plan-KeepsPlan cli.diagnostic o.readers target cli.timeout_ms o.proxy_lookup
            context.proxy_environment)
          (λ ps attempts transport.
            Ends-explained target tcp ps attempts transport parsed order distinct few))

  Ends-after_validation :
      (valid : Result (Option Url)) → Ends o cli (after_validation o cli context valid)
  Ends-after_validation (Result.err error) = tt
  Ends-after_validation (Result.ok valid) =
      Ends-with_target (parse_target o.readers cli.target) refl

-- Whatever the arguments, the environment and the answers from outside, a diagnosis ends in an error or in a
-- report, and meets none of these panics: the `expect` on the host of the proxy's URL, in planning and in the
-- handshake with the proxy; the `unreachable!` for a scheme of the target other than the three, and for a
-- proxy without evidence; and the `expect` on the failed attempts in the conclusion. The report is of the target that the argument names, which can be probed; with one TCP result
-- for each resolved address, in their order, of distinct addresses and at most 32; with the conclusion that
-- its evidence names, which the diagnosis leaves as it is; and with the exit code 1 exactly if nothing
-- answered.
pub diagnose_with_context-Ends :
    (o : Outside) (cli : Cli) (context : DiagnosticContext)
    → AreReaders o.readers
    → Ends o cli (diagnose_with_context o cli context)
unfolding diagnose_with_context
diagnose_with_context-Ends o cli context law =
    Ends-after_validation o cli context law (validate_options o.readers cli)
