-- ===== src/Diagnosis/Application/Order.antt =====
-- The classification of application failures does not depend on the order of the attempts.
use mathlib.Core.List.{Permᴰ}
use netwhy.Prelude.{◌≡◌, true, not, List}
use netwhy.Prelude.Perms.{any-perm, all-perm, is_empty-perm, keep-perm}
use netwhy.Net.Least.{AreDistinct, AreDistinct-keep, min_by_address-perm}
use netwhy.Model.{is_failure, ApplicationReport}
use netwhy.Diagnosis.Application.{
  failed_connect, failed_http, failed_tls, least, classify_application_failure,
}

abbrev pub HaveDistinctAddresses : List ApplicationReport → Type 0
HaveDistinctAddresses attempts = AreDistinct (λ attempt. attempt.address) attempts

least-perm :
    (p : ApplicationReport → _) {xs ys : List ApplicationReport}
    → HaveDistinctAddresses xs
    → Permᴰ xs ys
    → least p xs ≡ least p ys
unfolding least
least-perm p {xs} d h = min_by_address-perm _ (AreDistinct-keep _ p xs d) (keep-perm p h)

-- Attempts on different addresses have one classification, cause included, in whatever order they
-- completed.
pub classify_application_failure-perm :
    (xs ys : List ApplicationReport)
    → HaveDistinctAddresses xs
    → Permᴰ xs ys
    → classify_application_failure xs ≡ classify_application_failure ys
unfolding classify_application_failure
classify_application_failure-perm xs ys d h = simp (
  any-perm (λ (attempt : ApplicationReport). not (is_failure attempt.status)) h,
  all-perm failed_connect h,
  is_empty-perm h,
  least-perm (λ _. true) d h,
  least-perm failed_http d h,
  least-perm failed_tls d h,
)
