-- ===== src/Diagnosis/Application/Deepest.antt =====
-- What a classification says of the attempts.
use mathlib.Core.Path.{subst⁻¹}
use netwhy.Prelude.{
  Bool, String, ◌≡◌, ◌⊎◌, ◌↔◌, inl, inr, refl, true, false, none, some, Option, List, [], ◌∷◌,
  arith, any, all, keep, and_then, All, Option-cases, keep-eq-nil, mem-keep, any-not, All-imp,
  All-of_all,
}
use netwhy.Net.{SocketAddr}
use netwhy.Net.Order.{min_by_address}
use netwhy.Net.Least.{IsLeast, empty_of_min, min_by_address-IsLeast}
use netwhy.Model.{Status, is_failure, ApplicationReport, TlsResult, HttpResult}
use netwhy.Diagnosis.Application.{
  ApplicationFailureStage, ApplicationFailure, application_failed, failed_connect, failed_http,
  failed_tls, least, connect_error, later_failure, classify_application_failure,
}

abbrev address : ApplicationReport → SocketAddr
address attempt = attempt.address

-- The attempt passes the test, and no other one that does has a lesser address.
abbrev pub IsLeastWith :
    (ApplicationReport → Bool) → List ApplicationReport → ApplicationReport → Type 0
IsLeastWith p attempts m = IsLeast address (keep p attempts) m

-- What stands behind a failure at each stage.
abbrev pub Explains : List ApplicationReport → ApplicationFailureStage → Option String → Type 0
Explains attempts ApplicationFailureStage.connect cause =
    All (λ a. a.connect.status ≡ Status.fail) attempts
    × ((m : ApplicationReport) × IsLeastWith (λ _. true) attempts m × (cause ≡ m.connect.error))
Explains attempts ApplicationFailureStage.http cause =
    (all failed_connect attempts ≡ false)
    × (((m : ApplicationReport) × (result : HttpResult) × IsLeastWith failed_http attempts m
          × (m.http ≡ some result)
          × (result.status ≡ Status.fail)
          × (cause ≡ result.error))
        ⊎ ((any failed_http attempts ≡ false) × (any failed_tls attempts ≡ false) × (cause ≡ none)))
Explains attempts ApplicationFailureStage.tls cause =
    (all failed_connect attempts ≡ false)
    × (any failed_http attempts ≡ false)
    × ((m : ApplicationReport) × (result : TlsResult) × IsLeastWith failed_tls attempts m
        × (m.tls ≡ some result)
        × (result.status ≡ Status.fail)
        × (cause ≡ result.error))

pub fail_of_is_failure : (s : Status) → is_failure s ≡ true → s ≡ Status.fail
fail_of_is_failure s h = ground arith

-- The test finds a least element, or fails everywhere.
least_cases :
    (p : ApplicationReport → Bool) (attempts : List ApplicationReport)
    → ((least p attempts ≡ none) × (any p attempts ≡ false))
      ⊎ ((m : ApplicationReport) × (least p attempts ≡ some m)
          × IsLeastWith p attempts m
          × (p m ≡ true))
unfolding least
least_cases p attempts = elim (Option-cases (min_by_address address (keep p attempts))) [
  | inl e ↦ inl (e, keep-eq-nil p attempts (empty_of_min address (keep p attempts) e))
  | inr (m, e) ↦
      let found = min_by_address-IsLeast address (keep p attempts) m e in
      inr (m, e, found, mem-keep p attempts found.0)
]

-- A classification exists exactly when there are attempts and all of them failed.
pub classify_application_failure-none :
    (attempts : List ApplicationReport)
    → (classify_application_failure attempts ≡ none) ↔ (application_failed attempts ≡ false)
unfolding classify_application_failure
classify_application_failure-none attempts =
    ground (arith, any-not (λ (a : ApplicationReport). is_failure a.status) attempts)

connect_stage :
    (attempts : List ApplicationReport)
    → application_failed attempts ≡ true
    → all failed_connect attempts ≡ true
    → Explains attempts ApplicationFailureStage.connect
        (and_then (least (λ _. true) attempts) connect_error)
connect_stage attempts failed refused = (
  All-imp (λ a. fail_of_is_failure a.connect.status) attempts
      (All-of_all failed_connect attempts refused),
  elim (least_cases (λ _. true) attempts) [
    | inl (e, empty) ↦ absurd (nonempty attempts failed empty)
    | inr (m, e, found, passed) ↦ (m, found, rw e)
  ],
)
  where
    nonempty :
        (xs : List ApplicationReport)
        → application_failed xs ≡ true
        → any (λ _. true) xs ≡ false
        → ⊥
    nonempty [] h k = cc
    nonempty (x ∷ xs) h k = cc

http_evidence :
    (m : ApplicationReport)
    → failed_http m ≡ true
    → (result : HttpResult) × (m.http ≡ some result) × (result.status ≡ Status.fail)
http_evidence m h = ground arith

tls_evidence :
    (m : ApplicationReport)
    → failed_tls m ≡ true
    → (result : TlsResult) × (m.tls ≡ some result) × (result.status ≡ Status.fail)
tls_evidence m h = ground arith

module _ (attempts : List ApplicationReport) where
  later_stage :
      all failed_connect attempts ≡ false
      → Explains attempts (later_failure attempts).stage (later_failure attempts).cause
  unfolding later_failure
  later_stage connected = elim (least_cases failed_http attempts) [
    | inr (m, found, least_m, failed) ↦
        let (result, q, r) = http_evidence m failed in
        rw (found, q) (connected, inl (m, result, least_m, q, r, refl))
    | inl (no_http, none_http) ↦ elim (least_cases failed_tls attempts) [
      | inr (m, found, least_m, failed) ↦
          let (result, q, r) = tls_evidence m failed in
          rw (no_http, found, q) (connected, none_http, (m, result, least_m, q, r, refl))
      | inl (no_tls, none_tls) ↦ rw (no_http, no_tls) (connected, inr (none_http, none_tls, refl))
    ]
  ]

  -- The failure that is reported, where there is one.
  classified :
      (f : ApplicationFailure)
      → classify_application_failure attempts ≡ some f
      → (application_failed attempts ≡ true)
        × ((all failed_connect attempts ≡ true)
              × (f ≡ record {
                stage = ApplicationFailureStage.connect;
                cause = and_then (least (λ _. true) attempts) connect_error;
              })
            ⊎ (all failed_connect attempts ≡ false) × (f ≡ later_failure attempts))
  unfolding classify_application_failure
  classified f e = ground (arith, any-not (λ (a : ApplicationReport). is_failure a.status) attempts)

  -- The classification names the connection where every attempt failed to connect, else HTTP where
  -- an attempt failed in HTTP, else TLS where an attempt failed in TLS, else HTTP with no cause. The
  -- cause is that of the least address among the attempts that failed at the stage.
  pub classify_application_failure-Explains :
      (f : ApplicationFailure)
      → classify_application_failure attempts ≡ some f
      → Explains attempts f.stage f.cause
  classify_application_failure-Explains f e =
      let (failed, which) = classified f e in
      elim which [
        | inl (refused, same) ↦
            subst⁻¹ (λ f. Explains attempts f.stage f.cause) same
              (connect_stage attempts failed refused)
        | inr (connected, same) ↦
            subst⁻¹ (λ f. Explains attempts f.stage f.cause) same (later_stage connected)
      ]

  pub connect_of_stage :
      (f : ApplicationFailure)
      → classify_application_failure attempts ≡ some f
      → f.stage ≡ ApplicationFailureStage.connect
      → all failed_connect attempts ≡ true
  unfolding classify_application_failure
  connect_of_stage f e stage = ground arith
