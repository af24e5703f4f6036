-- ===== src/Diagnosis/Facts.antt =====
-- What the tests of src/diagnosis.rs decide, in the terms of the specification.
use mathlib.Core.List.{Memᴰ}
use netwhy.Prelude.{
  ◌≡◌, ◌≢◌, refl, true, false, not, List, [], ◌∷◌, arith, eq_iff, mem_of_any, All-of_not_any,
  nonempty, any, any-not, all, is_empty, All, All-of_all, All-imp,
}
use netwhy.Model.{Status, is_failure, ApplicationReport, DiagnosticReport}
use netwhy.Diagnosis.{partial_application_failure}
use netwhy.Diagnosis.Application.{application_failed, failed_connect}
use netwhy.Diagnosis.Proxy.{uses_proxy}
use netwhy.Diagnosis.Spec.{UsesProxy, IsDirect}

pub uses_proxy_sound : (r : DiagnosticReport) → uses_proxy r ≡ true → UsesProxy r
unfolding uses_proxy
uses_proxy_sound r h = ground (arith, eq_iff r.request.proxy_mode "direct")

pub not_uses_proxy : (r : DiagnosticReport) → uses_proxy r ≡ false → IsDirect r
unfolding uses_proxy
not_uses_proxy r h = ground (arith, eq_iff r.request.proxy_mode "direct")

pub fail_of_is_failure : (s : Status) → is_failure s ≡ true → s ≡ Status.fail
fail_of_is_failure s h = ground arith

not_fail : (s : Status) → is_failure s ≡ false → s ≢ Status.fail
not_fail s h = ground arith

module _ (attempts : List ApplicationReport) where
  pub All-failed :
      application_failed attempts ≡ true
      → (attempts ≢ []) × All (λ a. a.status ≡ Status.fail) attempts
  All-failed h = (
    nonempty (λ (a : ApplicationReport). is_failure a.status) attempts (ground arith),
    All-imp (λ a. fail_of_is_failure a.status) attempts
        (All-of_all (λ (a : ApplicationReport). is_failure a.status) attempts (ground arith)),
  )

  pub all_connects_failed :
      all failed_connect attempts ≡ true → All (λ a. a.connect.status ≡ Status.fail) attempts
  all_connects_failed h =
      All-imp (λ a. fail_of_is_failure a.connect.status) attempts
        (All-of_all failed_connect attempts h)

  pub none_failed :
      any (λ (a : ApplicationReport). is_failure a.status) attempts ≡ false
      → All (λ a. a.status ≢ Status.fail) attempts
  none_failed h =
      All-imp (λ a. not_fail a.status) attempts
        (All-of_not_any (λ (a : ApplicationReport). is_failure a.status) attempts h)

-- No attempt failed, unless all or some did.
pub not-All_failed :
    (attempts : List ApplicationReport)
    → application_failed attempts ≡ false
    → (attempts ≢ []) × All (λ a. a.status ≡ Status.fail) attempts
    → ⊥
not-All_failed [] h (n, _) = n refl
not-All_failed (a ∷ attempts) h (n, (e, es)) = go attempts es (ground arith)
  where
    go :
        (rest : List ApplicationReport)
        → All (λ a. a.status ≡ Status.fail) rest
        → all (λ (a : ApplicationReport). is_failure a.status) rest ≡ false
        → ⊥
    go [] h k = cc
    go (b ∷ rest) h k = go rest h.1 (ground arith)

pub quiet_of_not_partial :
    (attempts : List ApplicationReport)
    → application_failed attempts ≡ false
    → partial_application_failure attempts ≡ false
    → All (λ a. a.status ≢ Status.fail) attempts
unfolding partial_application_failure
quiet_of_not_partial attempts h k = none_failed attempts (
    ground (
      arith,
      any-not (λ (a : ApplicationReport). is_failure a.status) attempts,
      empty_any attempts,
    ))
  where
    empty_any :
        (rest : List ApplicationReport)
        → is_empty rest ≡ true
        → any (λ (a : ApplicationReport). is_failure a.status) rest ≡ false
    empty_any [] h = refl
    empty_any (a ∷ rest) h = cc

pub partial_witnesses :
    (attempts : List ApplicationReport)
    → partial_application_failure attempts ≡ true
    → ((a : ApplicationReport) × Memᴰ a attempts × (a.status ≡ Status.fail))
      × ((a : ApplicationReport) × Memᴰ a attempts × (a.status ≢ Status.fail))
unfolding partial_application_failure
partial_witnesses attempts h =
    let (a, m, e) =
      mem_of_any (λ (a : ApplicationReport). is_failure a.status) attempts (ground arith) in
    let (b, n, f) =
      mem_of_any (λ (a : ApplicationReport). not (is_failure a.status)) attempts (ground arith) in
    ((a, m, fail_of_is_failure a.status e), (b, n, not_fail b.status (ground arith)))
