-- ===== src/Tests/DiagnosisTests.antt =====
-- src/diagnosis.rs
use mathlib.Core.List.Permᴰ
use netwhy.Prelude.{
  ◌≡◌, ◌≢◌, ◌↔◌, false, unwrap_or, refl, Option, none, some, List, [], ◌∷◌, arith, map_option,
}
use netwhy.Model.{Status, DiagnosisCode, DiagnosticReport, ApplicationReport}
use netwhy.Diagnosis.{explain, conclude, finish, explain_application, explain_success}
use netwhy.Diagnosis.Notes.{context_notes}
use netwhy.Diagnosis.Transport.{
  diagnose_dns_failure, diagnose_tcp_failure, diagnose_family_asymmetry,
}
use netwhy.Diagnosis.Proxy.{uses_proxy, explain_proxy_result}
use netwhy.Net.Order.{min_by_address}
use netwhy.Diagnosis.Application.{
  ApplicationFailureStage, application_failed, classify_application_failure, least,
  diagnose_application_failure, diagnose_http_error,
}
use netwhy.Diagnosis.Application.Order.{classify_application_failure-perm}
use netwhy.Diagnosis.Application.Deepest.{
  Explains, classify_application_failure-Explains, classify_application_failure-none,
}
use netwhy.Diagnosis.Spec.{IsUnreachable}
use netwhy.Diagnosis.Exit.{exit_code-explain}
use netwhy.Diagnosis.Frame.{with_conclusion, explain_keeps_evidence}
use netwhy.Diagnosis.Verdict.{IsSound, explain-IsSound}
use netwhy.Tests.Samples.{
  first_v4, second_v4, only_v6, connected, timed_out, refused_attempt, broken_attempt,
  answered_attempt, report_of, proxied,
}

code_of : DiagnosticReport → Option DiagnosisCode
unfolding explain finish context_notes conclude uses_proxy explain_proxy_result diagnose_dns_failure
    diagnose_tcp_failure explain_application diagnose_family_asymmetry diagnose_application_failure
    classify_application_failure least min_by_address diagnose_http_error explain_success
code_of r = map_option (λ (x : DiagnosticReport). x.diagnosis.code) (explain r)

timeout_code : code_of (report_of (timed_out first_v4 ∷ []) []) ≡ some DiagnosisCode.tcp_timeout
unfolding code_of
timeout_code = refl

family_code :
    code_of (report_of (connected first_v4 ∷ timed_out only_v6 ∷ []) [])
    ≡ some DiagnosisCode.address_family_partial
unfolding code_of
family_code = refl

http_code :
    code_of (
      report_of
        (connected first_v4 ∷ [])
        (broken_attempt first_v4 ∷ refused_attempt second_v4 ∷ []))
    ≡ some DiagnosisCode.http_exchange_failed
unfolding code_of
http_code = refl

proxy_code :
    code_of (proxied Status.fail (report_of [] (answered_attempt first_v4 407 ∷ [])))
    ≡ some DiagnosisCode.proxy_connection_failed
unfolding code_of
proxy_code = refl

first_ne_second : first_v4 ≢ second_v4
first_ne_second = ground arith

classify_application_failure-perm_example :
    classify_application_failure (refused_attempt first_v4 ∷ broken_attempt second_v4 ∷ [])
    ≡ classify_application_failure (broken_attempt second_v4 ∷ refused_attempt first_v4 ∷ [])
classify_application_failure-perm_example =
    classify_application_failure-perm (refused_attempt first_v4 ∷ broken_attempt second_v4 ∷ [])
      (broken_attempt second_v4 ∷ refused_attempt first_v4 ∷ []) ((first_ne_second, tt), (tt, tt))
      (Permᴰ.swap refl refl)

abbrev broken : List ApplicationReport
broken = broken_attempt first_v4 ∷ refused_attempt second_v4 ∷ []

classify_application_failure-Explains_example :
    Explains broken ApplicationFailureStage.http (some "closed")
unfolding classify_application_failure least min_by_address
classify_application_failure-Explains_example =
    classify_application_failure-Explains broken
      (record { stage = ApplicationFailureStage.http; cause = some "closed" }) refl

classify_application_failure-none_example :
    (classify_application_failure broken ≡ none) ↔ (application_failed broken ≡ false)
classify_application_failure-none_example = classify_application_failure-none broken

abbrev unanswered : DiagnosticReport
unanswered = report_of (timed_out first_v4 ∷ []) []

explain-IsSound_example :
    (r' : DiagnosticReport) × (explain unanswered ≡ some r') × IsSound unanswered r'
explain-IsSound_example = explain-IsSound unanswered

-- The report that comes out.
explained : DiagnosticReport
unfolding code_of
explained = unwrap_or unanswered (explain unanswered)

explain-unanswered : explain unanswered ≡ some explained
unfolding explained
explain-unanswered = refl

exit_code-explain_example : (explained.exit_code ≡ 1) ↔ IsUnreachable unanswered
exit_code-explain_example = exit_code-explain unanswered explained explain-unanswered

explain_keeps_evidence_example : explained ≡ with_conclusion unanswered explained
explain_keeps_evidence_example = explain_keeps_evidence unanswered explained explain-unanswered
