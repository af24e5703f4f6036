-- ===== src/Diagnosis/Verdict/Failure.antt =====
-- The conclusion where every attempt at the application protocol failed.
use mathlib.Core.Path.{subst}
use netwhy.Prelude.{◌≡◌, ◌≢◌, ◌⊎◌, inl, inr, refl, true, some, List, [], All, Option-cases, all}
use netwhy.Model.{Status, ApplicationReport, DiagnosticReport}
use netwhy.Diagnosis.State.{Draft}
use netwhy.Diagnosis.Application.{
  ApplicationFailureStage, ApplicationFailure, application_failed, failed_connect, report_stage,
  report_failure, diagnose_application_failure, classify_application_failure,
}
use netwhy.Diagnosis.Application.Deepest.{
  Explains, connect_of_stage, classify_application_failure-none,
  classify_application_failure-Explains,
}
use netwhy.Diagnosis.Spec.{UsesProxy, TcpWorked, ApplicationFailed}
use netwhy.Diagnosis.Facts.{All-failed}
use netwhy.Diagnosis.Verdict.Conclusion.{Reaches, Concludes}

-- A failure of every attempt is classified, and the stage's code is set with the cause.
module _ (r : DiagnosticReport) (d : Draft) where
  stage-Reaches :
      (f : ApplicationFailure)
      → UsesProxy r ⊎ TcpWorked r
      → (f.stage ≡ ApplicationFailureStage.connect → TcpWorked r)
      → ApplicationFailed r
      → Explains r.application_attempts f.stage f.cause
      → Reaches r (report_failure f d)
  unfolding report_failure report_stage
  stage-Reaches f arrived direct failed why = go f.stage refl
    where
      go : (s : ApplicationFailureStage) → f.stage ≡ s → Reaches r (report_failure f d)
      go ApplicationFailureStage.connect e =
          rw e (record { named = (direct e, failed, rw e at why); outcome = refl })
      go ApplicationFailureStage.tls e =
          rw e (record { named = (arrived, failed, rw e at why); outcome = refl })
      go ApplicationFailureStage.http e =
          rw e (record { named = (arrived, failed, rw e at why); outcome = refl })

  -- The draft's attempts are those of the report.
  abbrev pub SameAttempts : Type 0
  SameAttempts = d.report.application_attempts ≡ r.application_attempts

  classified :
      (attempts : List ApplicationReport)
      → application_failed attempts ≡ true
      → (f : ApplicationFailure) × (classify_application_failure attempts ≡ some f)
  classified attempts h = elim (Option-cases (classify_application_failure attempts)) [
    | inl e ↦ absurd (cc ((classify_application_failure-none attempts).0 e))
    | inr found ↦ found
  ]

  pub failure-Concludes :
      SameAttempts
      → application_failed d.report.application_attempts ≡ true
      → UsesProxy r ⊎ TcpWorked r
      → (all failed_connect d.report.application_attempts ≡ true → TcpWorked r)
      → Concludes r (diagnose_application_failure d)
  unfolding diagnose_application_failure
  failure-Concludes same failed arrived direct =
      let attempts = d.report.application_attempts in
      let (f, e) = classified attempts failed in
      let why = classify_application_failure-Explains attempts f e in
      (
        report_failure f d,
        rw e,
        stage-Reaches f arrived (λ stage. direct (connect_of_stage attempts f e stage))
            (subst (λ a. (a ≢ []) × All (λ x. x.status ≡ Status.fail) a) same
              (All-failed attempts failed))
            (subst (λ a. Explains a f.stage f.cause) same why),
      )
