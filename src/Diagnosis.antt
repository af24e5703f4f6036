-- ===== src/Diagnosis.antt =====
-- src/diagnosis.rs: the conclusion that is drawn from the evidence of a report. `none` is a panic
-- of `expect`.
pub mod State
pub mod Notes
pub mod Transport
pub mod Application
pub mod Proxy
pub mod Spec
mod Facts
mod TcpFacts
pub mod Verdict
pub mod Exit
pub mod Frame
use netwhy.Prelude.{
  ℕ, Bool, not, ◌&&◌, String, Option, some, List, [], ◌==◌, if◌then◌else◌, length, keep, any,
  is_empty, map_option, str_eq,
}
use netwhy.Model.{
  Status, is_failure, is_pass, DiagnosisCode, Diagnosis, DiagnosticReport, TcpResult,
  ApplicationReport,
}
use State.{Draft, ◌▸◌, set_overall, set_code, set_summary, set_likely_cause, suggest}
use Notes.{context_notes}
use Transport.{diagnose_dns_failure, diagnose_tcp_failure, diagnose_family_asymmetry}
use Application.{application_failed, diagnose_application_failure, diagnose_http_error}
use Proxy.{uses_proxy, explain_proxy_result}

-- `report.tcp.iter().filter(..Pass).count()`
abbrev pub successful : List TcpResult → ℕ
successful tcp = length (keep (λ result. is_pass result.status) tcp)

-- Some attempt failed and some attempt did not.
unfoldable pub partial_application_failure : List ApplicationReport → Bool
partial_application_failure attempts =
    any (λ application. is_failure application.status) attempts
    && any (λ application. not (is_failure application.status)) attempts

-- The end of `explain`, where the application protocol has not failed.
unfoldable pub explain_success : Bool → Draft → Draft
unfolding partial_application_failure
explain_success partial_family_failure d =
    let attempts = d.report.application_attempts in
    if partial_application_failure attempts
    then d
      ▸ set_overall Status.warn
      ▸ set_code DiagnosisCode.application_address_partial
      ▸ set_summary "The application protocol succeeded on one address after failing on another."
      ▸ set_likely_cause
          (some "the resolved addresses do not provide equivalent application behavior")
      ▸ suggest
          "Compare the per-address application attempts and check load balancer or dual-stack configuration."
    else if partial_family_failure
    then d ▸ set_overall Status.warn
    else d
      ▸ set_overall Status.pass
      ▸ set_code DiagnosisCode.connectivity_ok
      ▸ set_summary (
          if is_empty attempts
          then "DNS, routing, and TCP connectivity succeeded."
          else "DNS, routing, TCP, and the application protocol all succeeded.")

-- The part of `explain` after the families have been compared.
unfoldable pub explain_answers : Draft → Bool → Option Draft
explain_answers d partial_family_failure =
    if application_failed d.report.application_attempts
    then diagnose_application_failure d
    else (let (d', http_error) = diagnose_http_error d in
        some (if http_error then d' else explain_success partial_family_failure d'))

-- The part of `explain` after TCP has connected.
unfoldable pub explain_application : Draft → Option Draft
unfolding explain_answers
explain_application d =
    let (d', partial_family_failure) = diagnose_family_asymmetry d in
    explain_answers d' partial_family_failure

-- The part of `explain` before `finish`.
unfoldable pub conclude : Draft → Option Draft
conclude d =
    if uses_proxy d.report
    then explain_proxy_result d
    else if is_failure d.report.dns.status
    then some (diagnose_dns_failure d)
    else if successful d.report.tcp == 0
    then some (diagnose_tcp_failure d)
    else explain_application d

unfoldable pub finish : List String → Draft → DiagnosticReport
finish notes d = record d.report {
  diagnosis = record d.report.diagnosis { suggestions = d.suggestions; notes = notes };
  exit_code = (if is_failure d.report.overall then 1 else 0);
}

unfoldable pub explain : DiagnosticReport → Option DiagnosticReport
explain report =
    map_option (finish (context_notes report))
      (conclude (record { report = report; suggestions = [] }))
