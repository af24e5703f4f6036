-- ===== src/Diagnosis/Verdict/Proxied.antt =====
-- The conclusions about a run through a proxy.
use mathlib.Core.List.{Memᴰ}
use netwhy.Prelude.{
  Bool, ◌≡◌, inl, inr, refl, ap, true, false, some, List, [], ◌∷◌, arith, ◌&&◌, Bool-cases,
  Option-cases, all, is_empty,
}
use netwhy.Model.{Status, is_failure, ApplicationReport, DiagnosticReport, HttpResult}
use netwhy.Diagnosis.State.{Draft}
use netwhy.Diagnosis.Application.{application_failed, failed_connect}
use netwhy.Diagnosis.Proxy.{
  proxy_auth_rejected, answered_407, explain_proxy_failure, explain_proxy_success,
  explain_proxy_result,
}
use netwhy.Diagnosis.Spec.{UsesProxy, ProxyFailed, ProxyWorked}
use netwhy.Prelude.{mem_of_any, any_of_mem}
use netwhy.Diagnosis.Facts.{All-failed, all_connects_failed, not-All_failed, fail_of_is_failure}
use netwhy.Diagnosis.Verdict.Conclusion.{Reaches, Concludes}
use netwhy.Diagnosis.Verdict.Failure.{failure-Concludes}
use netwhy.Diagnosis.Verdict.Answers.{http-Reaches}

-- The answer 407 behind a rejection.
rejection_of :
    (a : ApplicationReport)
    → answered_407 a ≡ true
    → (result : HttpResult) × (a.http ≡ some result) × (result.status_code ≡ some 407)
rejection_of a h = elim (Option-cases a.http) [
  | inl e ↦ absurd (ground arith)
  | inr (result, e) ↦ (result, e, ground arith)
]

rejected_sound :
    (r : DiagnosticReport)
    → proxy_auth_rejected r ≡ true
    → (r.proxy_transport.status ≡ Status.fail)
      × ((a : ApplicationReport) × (result : HttpResult) × Memᴰ a r.application_attempts
          × (a.http ≡ some result)
          × (result.status_code ≡ some 407))
unfolding proxy_auth_rejected
rejected_sound r h =
    let (a, m, e) = mem_of_any answered_407 r.application_attempts (ground arith) in
    let (result, f, g) = rejection_of a e in
    (fail_of_is_failure r.proxy_transport.status (ground arith), (a, result, m, f, g))

empty_list : (xs : List ApplicationReport) → is_empty xs ≡ true → xs ≡ []
empty_list [] h = refl
empty_list (x ∷ xs) h = cc

not_ProxyFailed :
    (r : DiagnosticReport)
    → proxy_auth_rejected r ≡ false
    → (is_failure r.proxy_transport.status && is_empty r.application_attempts) ≡ false
    → application_failed r.application_attempts ≡ false
    → ProxyFailed r
    → ⊥
unfolding proxy_auth_rejected
not_ProxyFailed r e f g (inl (failed, (a, result, m, h, s))) =
    let rejected : answered_407 a ≡ true = rw (h, s) in
    cc (any_of_mem answered_407 r.application_attempts m rejected, ap is_failure failed)
not_ProxyFailed r e f g (inr (inl (failed, none_tried))) =
    cc (ap is_failure failed, ap {B = Bool} is_empty none_tried)
not_ProxyFailed r e f g (inr (inr (failed, _))) = not-All_failed r.application_attempts g failed

module _ (d : Draft) (uses : UsesProxy d.report) where
  proxy_failure-Concludes :
      application_failed d.report.application_attempts ≡ true
      → Concludes d.report (explain_proxy_failure d)
  unfolding explain_proxy_failure
  proxy_failure-Concludes failed =
      let attempts = d.report.application_attempts in
      elim (Bool-cases (all failed_connect attempts)) [
        | inl e ↦ rw e (
          _,
          refl,
          record {
            named = (
              uses,
              inr (inr ((All-failed attempts failed, all_connects_failed attempts e), refl)),
            );
            outcome = refl;
          },
        )
        | inr e ↦ rw e (failure-Concludes d.report d refl failed (inl uses) (λ c. absurd (cc c)))
      ]

  proxy_success_concludes : ProxyWorked d.report → Reaches d.report (explain_proxy_success d)
  unfolding explain_proxy_success
  proxy_success_concludes worked = elim (http-Reaches d.report d refl (inl worked)) [
    | inl (answered, reached) ↦ rw answered reached
    | inr silent ↦ rw silent (record { named = (inl worked, refl); outcome = refl })
  ]

  -- A proxy's run leads to a conclusion.
  pub proxy-Concludes : Concludes d.report (explain_proxy_result d)
  unfolding explain_proxy_result
  proxy-Concludes = elim (Bool-cases (proxy_auth_rejected d.report)) [
    | inl e ↦
        rw e (
          _,
          refl,
          record { named = (uses, inl (rejected_sound d.report e, refl)); outcome = refl },
        )
    | inr e ↦
        elim (Bool-cases
          (is_failure d.report.proxy_transport.status && is_empty d.report.application_attempts)) [
            | inl f ↦
                rw (e, f)
                  (
                    _,
                    refl,
                    record {
                      named = (
                        uses,
                        inr (
                            inl (
                              (
                                fail_of_is_failure d.report.proxy_transport.status (ground arith),
                                empty_list d.report.application_attempts (ground arith),
                              ),
                              refl,
                            )),
                      );
                      outcome = refl;
                    },
                  )
            | inr f ↦ elim (Bool-cases (application_failed d.report.application_attempts)) [
              | inl g ↦ rw (e, f, g) (proxy_failure-Concludes g)
              | inr g ↦
                  rw (e, f, g)
                    (
                      _,
                      refl,
                      proxy_success_concludes (
                        uses,
                        not_ProxyFailed d.report e f g,
                        not-All_failed d.report.application_attempts g,
                      ),
                    )
            ]
          ]
  ]
