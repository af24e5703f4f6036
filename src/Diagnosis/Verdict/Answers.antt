-- ===== src/Diagnosis/Verdict/Answers.antt =====
-- The conclusions after TCP has connected.
use mathlib.Core.Path.{subst}
use netwhy.Prelude.{
  ℕ, ◌≤◌, Bool, String, leb, if◌then◌else◌, ◌≡◌, ◌≢◌, ◌⊎◌, inl, inr, refl, true, false, not, none,
  some, Option, [], arith, find, and_then, All, Bool-cases, Option-cases,
}
use netwhy.Model.{
  Status, is_failure, AddressFamily, DiagnosisCode, ApplicationReport, DiagnosticReport, HttpResult,
}
use netwhy.Diagnosis.{
  explain_success, explain_answers, explain_application, partial_application_failure,
}
use netwhy.Diagnosis.State.{Draft}
use netwhy.Diagnosis.Application.{
  application_failed, first_http_status, error_status, diagnose_http_error,
}
use netwhy.Diagnosis.Transport.{diagnose_family_asymmetry, family_state, asymmetry}
use netwhy.Diagnosis.Spec.{TcpWorked, OnlyFamily, HasHttpError, Answered}
use netwhy.Diagnosis.TcpFacts.{asymmetric_sound}
use netwhy.Diagnosis.Facts.{not-All_failed, quiet_of_not_partial, partial_witnesses}
use netwhy.Diagnosis.Verdict.Conclusion.{Reaches, Concludes}
use netwhy.Diagnosis.Verdict.Failure.{SameAttempts, failure-Concludes}

abbrev status_of : Option ApplicationReport → Option ℕ
status_of o = and_then o (λ a. and_then a.http (λ result. result.status_code))

-- The attempt and the answer behind an error status.
answer_of :
    (o : Option ApplicationReport) (code : ℕ)
    → error_status (status_of o) ≡ some code
    → (a : ApplicationReport) × (result : HttpResult) × (o ≡ some a)
      × (a.http ≡ some result)
      × (result.status_code ≡ some code)
      × (400 ≤ code)
answer_of none code h = cc
answer_of (some a) code h = elim (Option-cases a.http) [
  | inl e ↦ absurd (ground arith)
  | inr (result, e) ↦ (a, result, refl, e, ground arith, ground arith)
]

-- The cause that goes with an error status
abbrev cause_of : ℕ → Option String
cause_of code = some (
    if leb 500 code
    then "the remote application or its upstream dependency is failing"
    else "the endpoint rejected the request, often because of authentication, authorization, or path rules")

http_error_sound :
    (r : DiagnosticReport) (code : ℕ)
    → error_status (first_http_status r.application_attempts) ≡ some code
    → HasHttpError r (cause_of code)
unfolding first_http_status
http_error_sound r code h =
    let (a, result, found, answered, status, error) =
      answer_of (find (λ a. not (is_failure a.status)) r.application_attempts) code h in
    elim (Bool-cases (leb 500 code)) [
      | inl e ↦ rw e (inl (code, (a, result, found, answered, status), ground arith, refl))
      | inr e ↦ rw e (inr (code, (a, result, found, answered, status), error, ground arith, refl))
    ]

module _ (r : DiagnosticReport) (d : Draft) where
  -- What follows an HTTP exchange that worked: an error status is reported, and nothing else is
  -- changed where there is none.
  pub http-Reaches :
      SameAttempts r d
      → Answered r
      → ((diagnose_http_error d).1 ≡ true) × Reaches r (diagnose_http_error d).0
        ⊎ (diagnose_http_error d ≡ (d, false))
  unfolding diagnose_http_error
  http-Reaches same arrived =
      elim (Option-cases (error_status (first_http_status d.report.application_attempts))) [
        | inl e ↦ inr (rw e)
        | inr (code, e) ↦ rw e (
            inl (
              refl,
              record { named = (arrived, http_error_sound r code (rw same at e)); outcome = refl },
            ))
      ]

  Asymmetric : Type 0
  Asymmetric =
      (d.report.diagnosis.code ≡ DiagnosisCode.address_family_partial)
      × (OnlyFamily r AddressFamily.ipv4 AddressFamily.ipv6
            × (d.report.diagnosis.likely_cause
                ≡ some "the IPv6 route, VPN policy, or upstream IPv6 connectivity is broken")
          ⊎ OnlyFamily r AddressFamily.ipv6 AddressFamily.ipv4
            × (d.report.diagnosis.likely_cause
                ≡ some
                    "the IPv4 route, NAT, firewall policy, or upstream IPv4 connectivity is broken"))

  -- The likely cause has not been set.
  SameCause : Type 0
  SameCause = d.report.diagnosis.likely_cause ≡ r.diagnosis.likely_cause

  -- The end of `explain`, where no attempt failed.
  quiet-Reaches :
      (partial : Bool)
      → TcpWorked r
      → (partial ≡ true → Asymmetric)
      → (partial ≡ false → SameCause)
      → All (λ a. a.status ≢ Status.fail) r.application_attempts
      → partial_application_failure d.report.application_attempts ≡ false
      → Reaches r (explain_success partial d)
  unfolding explain_success Asymmetric SameCause
  quiet-Reaches true worked asym same quiet e =
      let (code, families) = asym refl in
      rw e (record { named = rw code (worked, quiet, families); outcome = rw code })
  quiet-Reaches false worked asym same quiet e =
      rw e (record { named = (inr (worked, quiet), same refl); outcome = refl })

  success-Reaches :
      (partial : Bool)
      → SameAttempts r d
      → TcpWorked r
      → (partial ≡ true → Asymmetric)
      → (partial ≡ false → SameCause)
      → application_failed d.report.application_attempts ≡ false
      → Reaches r (explain_success partial d)
  unfolding explain_success
  success-Reaches partial same worked asym cause failed =
      let attempts = d.report.application_attempts in
      elim (Bool-cases (partial_application_failure attempts)) [
        | inl e ↦
            let (failing, working) = rw same at (partial_witnesses attempts e) in
            rw e (record { named = (worked, failing, working, refl); outcome = refl })
        | inr e ↦
            quiet-Reaches partial worked asym cause
              (subst (All (λ a. a.status ≢ Status.fail)) same
                (quiet_of_not_partial attempts failed e))
              e
      ]

  -- What follows TCP leads to a conclusion.
  answers_conclude :
      (partial : Bool)
      → SameAttempts r d
      → TcpWorked r
      → (partial ≡ true → Asymmetric)
      → (partial ≡ false → SameCause)
      → Concludes r (explain_answers d partial)
  unfolding explain_answers
  answers_conclude partial same worked asym cause =
      let attempts = d.report.application_attempts in
      elim (Bool-cases (application_failed attempts)) [
        | inl e ↦ rw e (failure-Concludes r d same e (inr worked) (λ _. worked))
        | inr e ↦
            elim (http-Reaches same (
              inr (
                worked,
                subst (λ a. (a ≢ []) × All (λ x. x.status ≡ Status.fail) a → ⊥) same
                    (not-All_failed attempts e),
              ))) [
                | inl (answered, reached) ↦ ((diagnose_http_error d).0, rw (e, answered), reached)
                | inr silent ↦ (
                  explain_success partial d,
                  rw (e, silent),
                  success-Reaches partial same worked asym cause e,
                )
              ]
      ]

module _ (d : Draft) where
  abbrev States : Option Bool → Option Bool → Type 0
  States s4 s6 =
      (family_state d.report.tcp AddressFamily.ipv4 ≡ s4)
      × (family_state d.report.tcp AddressFamily.ipv6 ≡ s6)

  compared_conclude :
      (s4 s6 : Option Bool)
      → States s4 s6
      → TcpWorked d.report
      → Concludes d.report (explain_answers (asymmetry s4 s6 d).0 (asymmetry s4 s6 d).1)
  unfolding asymmetry Asymmetric SameCause
  compared_conclude (some true) (some false) (e4, e6) worked =
      answers_conclude d.report (asymmetry (some true) (some false) d).0 true refl worked
        (λ _. (
          refl,
          inl (asymmetric_sound d.report.tcp AddressFamily.ipv4 AddressFamily.ipv6 e4 e6, refl),
        ))
        (λ e. absurd (cc))
  compared_conclude (some false) (some true) (e4, e6) worked =
      answers_conclude d.report (asymmetry (some false) (some true) d).0 true refl worked
        (λ _. (
          refl,
          inr (asymmetric_sound d.report.tcp AddressFamily.ipv6 AddressFamily.ipv4 e6 e4, refl),
        ))
        (λ e. absurd (cc))
  compared_conclude (some true) (some true) h worked =
      answers_conclude d.report d false refl worked (λ e. cc) (λ _. refl)
  compared_conclude (some false) (some false) h worked =
      answers_conclude d.report d false refl worked (λ e. cc) (λ _. refl)
  compared_conclude (some true) none h worked =
      answers_conclude d.report d false refl worked (λ e. cc) (λ _. refl)
  compared_conclude (some false) none h worked =
      answers_conclude d.report d false refl worked (λ e. cc) (λ _. refl)
  compared_conclude none s6 h worked =
      answers_conclude d.report d false refl worked (λ e. cc) (λ _. refl)

  pub application_conclude : TcpWorked d.report → Concludes d.report (explain_application d)
  unfolding explain_application diagnose_family_asymmetry
  application_conclude worked = compared_conclude _ _ (refl, refl) worked
