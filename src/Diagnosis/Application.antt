-- ===== src/Diagnosis/Application.antt =====
-- src/diagnosis.rs: the failures of the application protocol, and HTTP error statuses.
pub mod Order
pub mod Deepest
use netwhy.Prelude.{
  ℕ, Bool, true, false, not, ◌&&◌, ◌||◌, String, Option, none, some, List, leb, ◌<>◌, if◌then◌else◌,
  any, all, keep, find, is_empty, is_some_and, map_option, and_then, decimal,
}
use netwhy.Net.Order.{min_by_address}
use netwhy.Model.{Status, is_failure, DiagnosisCode, ApplicationReport, TlsResult, HttpResult}
use netwhy.Diagnosis.State.{
  Draft, ◌▸◌, set_overall, set_code, set_summary, set_likely_cause, suggest,
}

-- There is an attempt, and every attempt failed.
abbrev pub application_failed : List ApplicationReport → Bool
application_failed attempts =
    not (is_empty attempts) && all (λ application. is_failure application.status) attempts

pub data ApplicationFailureStage : Type 0 where
  connect tls http : ApplicationFailureStage

pub record ApplicationFailure : Type 0 where
  pub stage : ApplicationFailureStage
  pub cause : Option String

abbrev pub failed_connect : ApplicationReport → Bool
failed_connect attempt = is_failure attempt.connect.status

abbrev pub failed_http : ApplicationReport → Bool
failed_http attempt = is_some_and (λ (result : HttpResult). is_failure result.status) attempt.http

abbrev pub failed_tls : ApplicationReport → Bool
failed_tls attempt = is_some_and (λ (result : TlsResult). is_failure result.status) attempt.tls

-- The attempt with the least address among those that pass the test.
unfoldable pub least :
    (ApplicationReport → Bool) → List ApplicationReport → Option ApplicationReport
unfolding min_by_address
least p attempts = min_by_address (λ attempt. attempt.address) (keep p attempts)

abbrev connect_error : ApplicationReport → Option String
connect_error attempt = attempt.connect.error

-- The failure at a stage, or the later answer where no attempt has the stage's evidence.
abbrev at_http : Option HttpResult → ApplicationFailure → ApplicationFailure
at_http none later = later
at_http (some result) later = record { stage = ApplicationFailureStage.http; cause = result.error }

abbrev at_tls : Option TlsResult → ApplicationFailure → ApplicationFailure
at_tls none later = later
at_tls (some result) later = record { stage = ApplicationFailureStage.tls; cause = result.error }

-- The failure after the test for connections.
unfoldable pub later_failure : List ApplicationReport → ApplicationFailure
later_failure attempts = at_http (and_then (least failed_http attempts) (λ attempt. attempt.http)) (
    at_tls (and_then (least failed_tls attempts) (λ attempt. attempt.tls))
      (record { stage = ApplicationFailureStage.http; cause = none }))

-- The deepest protocol layer that any failed attempt reached.
unfoldable pub classify_application_failure : List ApplicationReport → Option ApplicationFailure
unfolding later_failure
classify_application_failure attempts =
    if is_empty attempts || any (λ attempt. not (is_failure attempt.status)) attempts
    then none
    else if all failed_connect attempts
    then some (record {
      stage = ApplicationFailureStage.connect;
      cause = and_then (least (λ _. true) attempts) connect_error;
    })
    else some (later_failure attempts)

-- The arms of the match on the stage.
unfoldable pub report_stage : ApplicationFailureStage → Draft → Draft
report_stage ApplicationFailureStage.connect d =
    d
    ▸ set_code DiagnosisCode.application_connect_failed
    ▸ set_summary "The initial TCP probe succeeded, but every application reconnect failed."
    ▸ suggest
        "Check whether the service is intermittent, rate-limited, or closing connections between probes."
report_stage ApplicationFailureStage.tls d =
    d
    ▸ set_code DiagnosisCode.tls_handshake_failed
    ▸ set_summary "TCP connects, but the TLS handshake fails."
    ▸ suggest
        "Check the certificate name, trust chain, system clock, SNI, and supported TLS versions."
report_stage ApplicationFailureStage.http d =
    d
    ▸ set_code DiagnosisCode.http_exchange_failed
    ▸ set_summary "The transport connects, but the HTTP exchange fails."
    ▸ suggest "Confirm that the port serves HTTP and accepts HEAD requests."

-- What is written about a failure.
unfoldable pub report_failure : ApplicationFailure → Draft → Draft
unfolding report_stage
report_failure failure d =
    d ▸ set_overall Status.fail ▸ report_stage failure.stage ▸ set_likely_cause failure.cause

-- `none` is the panic of `expect`.
unfoldable pub diagnose_application_failure : Draft → Option Draft
unfolding report_failure
diagnose_application_failure d =
    map_option (λ failure. report_failure failure d)
      (classify_application_failure d.report.application_attempts)

-- The HTTP status of the first attempt that did not fail.
unfoldable pub first_http_status : List ApplicationReport → Option ℕ
first_http_status attempts =
    and_then (find (λ application. not (is_failure application.status)) attempts)
      (λ application. and_then application.http (λ result. result.status_code))

-- The status, where it is an error.
abbrev pub error_status : Option ℕ → Option ℕ
error_status none = none
error_status (some code) = if leb 400 code then some code else none

abbrev pub report_http_error : Option ℕ → Draft → Draft × Bool
report_http_error none d = (d, false)
report_http_error (some code) d = (
  d
      ▸ set_overall Status.warn
      ▸ set_code DiagnosisCode.http_error_status
      ▸ set_summary
          ("Network connectivity works; the server returned HTTP " <> (decimal code <> "."))
      ▸ set_likely_cause (
          some (
            if leb 500 code
            then "the remote application or its upstream dependency is failing"
            else "the endpoint rejected the request, often because of authentication, authorization, or path rules"))
      ▸ suggest "Use an application-authenticated request to verify endpoint behavior.",
  true,
)

unfoldable pub diagnose_http_error : Draft → Draft × Bool
unfolding first_http_status
diagnose_http_error d =
    report_http_error (error_status (first_http_status d.report.application_attempts)) d
