-- ===== src/Diagnosis/Verdict/Transport.antt =====
-- The conclusions about DNS and TCP.
use netwhy.Prelude.{
  ◌≡◌, inl, inr, refl, ap, sym, ◌∙◌, Option, String, some, [], ◌∷◌, Bool-cases, Option-cases,
  unwrap_or,
}
use netwhy.Model.{Status}
use netwhy.Diagnosis.State.{Draft}
use netwhy.Diagnosis.Transport.{
  diagnose_dns_failure, diagnose_tcp_failure, all_tcp_errors, has_no_route,
}
use netwhy.Diagnosis.Spec.{IsDirect, TcpFailed}
use netwhy.Diagnosis.TcpFacts.{one_tcp_error, has_no_route_sound}
use netwhy.Diagnosis.Verdict.Conclusion.{Reaches}

abbrev unwrapped : Option String → Option String
unwrapped error = some (unwrap_or "the system resolver returned no usable address" error)

pub dns-Reaches :
    (d : Draft)
    → IsDirect d.report
    → d.report.dns.status ≡ Status.fail
    → Reaches d.report (diagnose_dns_failure d)
unfolding diagnose_dns_failure
dns-Reaches d direct failed = elim (Option-cases d.report.dns.error) [
  | inl e ↦ record { named = (direct, failed, inr (e, ap (unwrapped) e)); outcome = refl }
  | inr (text, e) ↦ record {
    named = (direct, failed, inl (ap unwrapped e ∙ sym e, λ n. cc));
    outcome = refl;
  }
]

pub tcp-Reaches : (d : Draft) → TcpFailed d.report → Reaches d.report (diagnose_tcp_failure d)
unfolding diagnose_tcp_failure
tcp-Reaches d failed =
    let tcp = d.report.tcp in
    elim (Bool-cases (all_tcp_errors tcp ("connection_refused" ∷ []))) [
      | inl e ↦ rw e (record {
        named = (failed, one_tcp_error tcp "connection_refused" e, refl);
        outcome = refl;
      })
      | inr e ↦ elim (Bool-cases (has_no_route tcp d.report.routes)) [
        | inl f ↦
            rw (e, f)
              (record {
                named = (failed, has_no_route_sound tcp d.report.routes f, refl);
                outcome = refl;
              })
        | inr f ↦ elim (Bool-cases (all_tcp_errors tcp ("timeout" ∷ []))) [
          | inl g ↦
              rw (e, f, g)
                (record { named = (failed, one_tcp_error tcp "timeout" g, refl); outcome = refl })
          | inr g ↦ rw (e, f, g) (record { named = (failed, refl); outcome = refl })
        ]
      ]
    ]
