-- ===== src/Diagnosis/Frame.antt =====
-- What `explain` of src/diagnosis.rs leaves as it was.
use mathlib.Core.Path.{subst}
use mathlib.Core.Option.{some-injective}
use netwhy.Prelude.{
  ◌≡◌, refl, ap, ◌∙◌, Bool, true, false, Option, none, some, List, String, [], arith, ◌==◌, ◌&&◌,
  is_empty, all, map_option, if◌then◌else◌,
}
use netwhy.Model.{AddressFamily, is_failure, DiagnosticReport}
use netwhy.Diagnosis.{
  explain, conclude, finish, explain_answers, explain_success, explain_application, successful,
}
use netwhy.Diagnosis.State.{Draft}
use netwhy.Diagnosis.Notes.{context_notes}
use netwhy.Diagnosis.Transport.{
  diagnose_dns_failure, diagnose_tcp_failure, diagnose_family_asymmetry, family_state, asymmetry,
}
use netwhy.Diagnosis.Application.{
  ApplicationFailure, application_failed, failed_connect, report_failure,
  diagnose_application_failure, diagnose_http_error, classify_application_failure,
}
use netwhy.Diagnosis.Proxy.{
  uses_proxy, proxy_auth_rejected, explain_proxy_failure, explain_proxy_success, report_reachable,
  explain_proxy_result,
}

-- The report with the conclusion of another one.
abbrev pub with_conclusion : DiagnosticReport → DiagnosticReport → DiagnosticReport
with_conclusion r x = record r {
  diagnosis = x.diagnosis;
  overall = x.overall;
  exit_code = x.exit_code;
}

-- The draft has the evidence of the report.
abbrev Keeps : DiagnosticReport → Draft → Type 0
Keeps r d = d.report ≡ with_conclusion r d.report

Keeps-trans : (r : DiagnosticReport) (d d' : Draft) → Keeps r d → Keeps d.report d' → Keeps r d'
Keeps-trans r d d' h k = k ∙ ap (λ x. with_conclusion x d'.report) h

dns-Keeps : (d : Draft) → Keeps d.report (diagnose_dns_failure d)
unfolding diagnose_dns_failure
dns-Keeps d = refl

tcp-Keeps : (d : Draft) → Keeps d.report (diagnose_tcp_failure d)
unfolding diagnose_tcp_failure
tcp-Keeps d = ground arith

asymmetry-Keeps : (s4 s6 : Option Bool) (d : Draft) → Keeps d.report (asymmetry s4 s6 d).0
unfolding asymmetry
asymmetry-Keeps s4 s6 d = ground arith

failure-Keeps : (f : ApplicationFailure) (d : Draft) → Keeps d.report (report_failure f d)
unfolding report_failure
failure-Keeps f d = ground arith

http-Keeps : (d : Draft) → Keeps d.report (diagnose_http_error d).0
unfolding diagnose_http_error
http-Keeps d = ground arith

success-Keeps : (partial : Bool) (d : Draft) → Keeps d.report (explain_success partial d)
unfolding explain_success
success-Keeps partial d = ground arith

-- Whatever draft comes out, it has the evidence of the report.
abbrev AllKeep : DiagnosticReport → Option Draft → Type 0
AllKeep r none = Unit
AllKeep r (some d) = Keeps r d

application_failure_keeps : (d : Draft) → AllKeep d.report (diagnose_application_failure d)
unfolding diagnose_application_failure
application_failure_keeps d = go (classify_application_failure d.report.application_attempts)
  where
    go : (o : Option ApplicationFailure) → AllKeep d.report (map_option (λ f. report_failure f d) o)
    go none = tt
    go (some f) = failure-Keeps f d

AllKeep-if :
    (r : DiagnosticReport) (b : Bool) (m n : Option Draft)
    → AllKeep r m
    → AllKeep r n
    → AllKeep r (if b then m else n)
AllKeep-if r true m n h k = h
AllKeep-if r false m n h k = k

Keeps-if :
    (r : DiagnosticReport) (b : Bool) (d d' : Draft)
    → Keeps r d
    → Keeps r d'
    → Keeps r (if b then d else d')
Keeps-if r true d d' h k = h
Keeps-if r false d d' h k = k

answers_keep : (d : Draft) (partial : Bool) → AllKeep d.report (explain_answers d partial)
unfolding explain_answers
answers_keep d partial =
    let (d', http) = diagnose_http_error d in
    AllKeep-if d.report (application_failed d.report.application_attempts) _ _
      (application_failure_keeps d)
      (Keeps-if d.report http d' (explain_success partial d') (http-Keeps d) (
        Keeps-trans d.report d' (explain_success partial d') (http-Keeps d)
          (success-Keeps partial d')))

AllKeep-trans :
    (r : DiagnosticReport) (d : Draft) (o : Option Draft)
    → Keeps r d
    → AllKeep d.report o
    → AllKeep r o
AllKeep-trans r d none h k = tt
AllKeep-trans r d (some d') h k = Keeps-trans r d d' h k

application_keeps : (d : Draft) → AllKeep d.report (explain_application d)
unfolding explain_application diagnose_family_asymmetry
application_keeps d =
    let s4 = family_state d.report.tcp AddressFamily.ipv4 in
    let s6 = family_state d.report.tcp AddressFamily.ipv6 in
    let (d', partial) = asymmetry s4 s6 d in
    AllKeep-trans d.report d' (explain_answers d' partial) (asymmetry-Keeps s4 s6 d)
      (answers_keep d' partial)

proxy_failure_keeps : (d : Draft) → AllKeep d.report (explain_proxy_failure d)
unfolding explain_proxy_failure
proxy_failure_keeps d =
    AllKeep-if d.report (all failed_connect d.report.application_attempts) _ _ refl
      (application_failure_keeps d)

proxy_success-Keeps : (d : Draft) → Keeps d.report (explain_proxy_success d)
unfolding explain_proxy_success
proxy_success-Keeps d =
    let (d', http) = diagnose_http_error d in
    Keeps-if d.report http d' (report_reachable d') (http-Keeps d)
      (Keeps-trans d.report d' (report_reachable d') (http-Keeps d) refl)

proxy_keeps : (d : Draft) → AllKeep d.report (explain_proxy_result d)
unfolding explain_proxy_result
proxy_keeps d = AllKeep-if d.report (proxy_auth_rejected d.report) _ _ refl (
    AllKeep-if d.report
      (is_failure d.report.proxy_transport.status && is_empty d.report.application_attempts) _ _
      refl
      (AllKeep-if d.report (application_failed d.report.application_attempts) _ _
        (proxy_failure_keeps d) (proxy_success-Keeps d)))

conclude_keeps : (d : Draft) → AllKeep d.report (conclude d)
unfolding conclude
conclude_keeps d = AllKeep-if d.report (uses_proxy d.report) _ _ (proxy_keeps d) (
    AllKeep-if d.report (is_failure d.report.dns.status) _ _ (dns-Keeps d)
      (AllKeep-if d.report (successful d.report.tcp == 0) _ _ (tcp-Keeps d) (application_keeps d)))

finish_keeps :
    (r r' : DiagnosticReport) (notes : List String) (o : Option Draft)
    → AllKeep r o
    → map_option (finish notes) o ≡ some r'
    → r' ≡ with_conclusion r r'
unfolding finish
finish_keeps r r' notes none h e = cc
finish_keeps r r' notes (some d) h e =
    subst (λ x. x ≡ with_conclusion r x) (some-injective _ _ e)
      (ap (λ x. with_conclusion x (finish notes d)) h)

-- `explain` changes the diagnosis, the outcome and the exit code, and leaves the evidence alone.
pub explain_keeps_evidence :
    (r r' : DiagnosticReport) → explain r ≡ some r' → r' ≡ with_conclusion r r'
unfolding explain
explain_keeps_evidence r r' e =
    let d : Draft = record { report = r; suggestions = [] } in
    finish_keeps r r' (context_notes r) (conclude d) (conclude_keeps d) e
