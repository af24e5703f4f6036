-- ===== src/Diagnosis/Proxy.antt =====
-- src/diagnosis.rs: the conclusion about a run through a proxy.
use netwhy.Prelude.{
  Bool, not, ◌&&◌, Option, some, ◌==◌, if◌then◌else◌, any, all, find_map, is_empty, is_some_and,
  and_then, str_eq,
}
use netwhy.Model.{Status, is_failure, DiagnosisCode, DiagnosticReport, ApplicationReport}
use netwhy.Diagnosis.State.{
  Draft, ◌▸◌, set_overall, set_code, set_summary, set_likely_cause, suggest,
}
use netwhy.Diagnosis.Application.{
  application_failed, failed_connect, diagnose_application_failure, diagnose_http_error,
}

-- The first test of `explain`.
unfoldable pub uses_proxy : DiagnosticReport → Bool
uses_proxy report =
    not (str_eq report.request.proxy_mode "direct") && not report.proxy_transport.bypassed

-- The server answered 407.
abbrev pub answered_407 : ApplicationReport → Bool
answered_407 application =
    is_some_and (λ code. code == 407) (and_then application.http (λ http. http.status_code))

unfoldable pub proxy_auth_rejected : DiagnosticReport → Bool
proxy_auth_rejected report =
    is_failure report.proxy_transport.status && any answered_407 report.application_attempts

-- The branch of `explain_proxy_result` where every attempt failed.
unfoldable pub explain_proxy_failure : Draft → Option Draft
explain_proxy_failure d =
    if all failed_connect d.report.application_attempts
    then some (
        d
        ▸ set_overall Status.fail
        ▸ set_code DiagnosisCode.proxy_connection_failed
        ▸ set_summary "Every proxy connection attempt failed."
        ▸ set_likely_cause
            (find_map (λ application. application.connect.error) d.report.application_attempts)
        ▸ suggest
            "Verify proxy reachability, authentication, CONNECT policy, and the configured proxy scheme.")
    else diagnose_application_failure d

abbrev pub report_reachable : Draft → Draft
report_reachable d =
    d
    ▸ set_overall Status.pass
    ▸ set_code DiagnosisCode.connectivity_ok
    ▸ set_summary "The target is reachable through the selected proxy transport."

-- The end of `explain_proxy_result`.
unfoldable pub explain_proxy_success : Draft → Draft
explain_proxy_success d =
    let (d', http_error) = diagnose_http_error d in if http_error then d' else report_reachable d'

unfoldable pub explain_proxy_result : Draft → Option Draft
unfolding proxy_auth_rejected explain_proxy_failure explain_proxy_success
explain_proxy_result d =
    if proxy_auth_rejected d.report
    then some (
        d
        ▸ set_overall Status.fail
        ▸ set_code DiagnosisCode.proxy_connection_failed
        ▸ set_summary "The selected proxy rejected the request with HTTP 407."
        ▸ set_likely_cause
            (some "the proxy requires authentication or rejected the supplied credentials")
        ▸ suggest "Verify the proxy credentials and authentication method, then retry the request.")
    else if is_failure d.report.proxy_transport.status && is_empty d.report.application_attempts
    then some (
        d
        ▸ set_overall Status.fail
        ▸ set_code DiagnosisCode.proxy_connection_failed
        ▸ set_summary "The selected proxy transport could not be prepared."
        ▸ set_likely_cause d.report.proxy_transport.error
        ▸ suggest
            "Check the selected proxy URL, resolver, credentials, NO_PROXY rules, and proxy availability.")
    else if application_failed d.report.application_attempts
    then explain_proxy_failure d
    else some (explain_proxy_success d)
