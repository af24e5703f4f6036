-- ===== src/Diagnosis/Verdict.antt =====
-- Every conclusion of src/diagnosis.rs names what the evidence shows, and there always is one.
mod Conclusion
mod Transport
mod Failure
mod Answers
mod Proxied
use mathlib.Core.Path.{subst}
use mathlib.Core.List.{Memᴰ}
use netwhy.Prelude.{
  ℕ, ◌≤◌, Bool, String, ◌≡◌, ◌≢◌, ◌⊎◌, ◌↔◌, inl, inr, refl, ap, sym, ◌∙◌, true, false, not, none,
  some, Option, List, [], ◌∷◌, arith, ◌&&◌, ◌==◌, find, and_then, All, Bool-cases, Option-cases,
  any, all, is_empty, if◌then◌else◌, leb, map_option,
}
use netwhy.Model.{
  Status, is_failure, AddressFamily, DiagnosisCode, ApplicationReport, DiagnosticReport, HttpResult,
}
use netwhy.Diagnosis.{
  explain_success, explain_answers, explain_application, partial_application_failure, conclude,
  successful, explain, finish,
}
use netwhy.Diagnosis.Notes.{context_notes}
use netwhy.Diagnosis.State.{Draft}
use netwhy.Diagnosis.Application.{
  ApplicationFailureStage, ApplicationFailure, application_failed, failed_connect,
  first_http_status, error_status, report_stage, report_failure, report_http_error,
  diagnose_application_failure, diagnose_http_error, classify_application_failure,
}
use netwhy.Diagnosis.Application.Deepest.{
  Explains, connect_of_stage, classify_application_failure-none,
  classify_application_failure-Explains,
}
use netwhy.Diagnosis.Transport.{
  diagnose_dns_failure, diagnose_tcp_failure, diagnose_family_asymmetry, family_state, asymmetry,
  all_tcp_errors, has_no_route,
}
use netwhy.Diagnosis.Proxy.{
  uses_proxy, proxy_auth_rejected, answered_407, explain_proxy_failure, explain_proxy_success,
  explain_proxy_result,
}
use netwhy.Diagnosis.Spec.{
  UsesProxy, IsDirect, TcpFailed, TcpWorked, ApplicationFailed, OnlyFamily, HasHttpError,
  ProxyFailed, ProxyWorked, Answered, Names, overall_of, IsUnreachable,
}
use netwhy.Prelude.{mem_of_any, any_of_mem}
use netwhy.Diagnosis.TcpFacts.{
  not_successful, successful_some, one_tcp_error, has_no_route_sound, FamilyState, asymmetric_sound,
}
use netwhy.Diagnosis.Facts.{
  uses_proxy_sound, not_uses_proxy, All-failed, all_connects_failed, not-All_failed,
  quiet_of_not_partial, partial_witnesses, fail_of_is_failure,
}
use netwhy.Diagnosis.Verdict.Conclusion.{Reaches, Concludes}
use netwhy.Diagnosis.Verdict.Transport.{dns-Reaches, tcp-Reaches}
use netwhy.Diagnosis.Verdict.Answers.{application_conclude}
use netwhy.Diagnosis.Verdict.Proxied.{proxy-Concludes}

not_failed : (s : Status) → is_failure s ≡ false → s ≢ Status.fail
not_failed s h = ground arith

conclude-Concludes : (d : Draft) → Concludes d.report (conclude d)
unfolding conclude
conclude-Concludes d = elim (Bool-cases (uses_proxy d.report)) [
  | inl e ↦ rw e (proxy-Concludes d (uses_proxy_sound d.report e))
  | inr e ↦
      let direct = not_uses_proxy d.report e in
      elim (Bool-cases (is_failure d.report.dns.status)) [
        | inl f ↦
            rw (e, f) (_, refl, dns-Reaches d direct (fail_of_is_failure d.report.dns.status f))
        | inr f ↦
            let resolved = not_failed d.report.dns.status f in
            elim (Bool-cases (successful d.report.tcp == 0)) [
              | inl g ↦
                  rw (e, f, g)
                    (_, refl, tcp-Reaches d (direct, resolved, not_successful d.report.tcp g))
              | inr g ↦
                  rw (e, f, g)
                    (application_conclude d (direct, resolved, successful_some d.report.tcp g))
            ]
      ]
]

-- What a finished report says about the report that it was made from.
pub record IsSound (r r' : DiagnosticReport) : Type 0 where
  pub named : Names r r'.diagnosis.code r'.diagnosis.likely_cause
  pub outcome : r'.overall ≡ overall_of r'.diagnosis.code
  pub exit : r'.exit_code ≡ (if is_failure r'.overall then 1 else 0)

-- Every report is explained without a panic. The code and the likely cause name what the evidence
-- shows, the outcome is the one that goes with the code, and the exit code is 1 on failure and 0
-- otherwise.
pub explain-IsSound :
    (r : DiagnosticReport) → (r' : DiagnosticReport) × (explain r ≡ some r') × IsSound r r'
unfolding explain finish
explain-IsSound r =
    let (d, e, reached) = conclude-Concludes (record { report = r; suggestions = [] }) in
    (
      finish (context_notes r) d,
      rw e,
      record { named = reached.named; outcome = reached.outcome; exit = refl },
    )
