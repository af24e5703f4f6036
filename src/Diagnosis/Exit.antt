-- ===== src/Diagnosis/Exit.antt =====
-- The exit code of an explained report says whether anything answered.
use mathlib.Core.Path.{subst}
use mathlib.Core.Option.{some-injective}
use netwhy.Prelude.{
  ℕ, ◌≡◌, ◌≢◌, ◌⊎◌, ◌↔◌, inl, inr, Option, some, String, List, [], ◌∷◌, ap, refl, sym, ◌∙◌, arith,
  All, if◌then◌else◌,
}
use mathlib.Core.List.{Memᴰ}
use mathlib.Core.List.Memᴰ.{head, tail}
use netwhy.Model.{Status, is_failure, DiagnosisCode, DiagnosticReport, ApplicationReport, TcpResult}
use netwhy.Diagnosis.{explain}
use netwhy.Diagnosis.Spec.{
  UsesProxy, IsDirect, ApplicationFailed, TcpWorked, Answered, ProxyFailed, ProxyCause, Names,
  overall_of, IsUnreachable,
}
use netwhy.Diagnosis.Verdict.{IsSound, explain-IsSound}

not_both : (r : DiagnosticReport) → UsesProxy r → IsDirect r → ⊥
not_both r (mode, bypass) (inl e) = mode e
not_both r (mode, bypass) (inr e) = cc (bypass, e)

All-mem :
    {P : ApplicationReport → Type 0} {a : ApplicationReport} (xs : List ApplicationReport)
    → All P xs
    → Memᴰ a xs
    → (b : ApplicationReport) × (a ≡ b) × P b
All-mem [] h m = elim m [ ]
All-mem (x ∷ xs) h (head e) = (x, e, h.0)
All-mem (x ∷ xs) h (tail m) = All-mem xs h.1 m

no_connection :
    (tcp : List TcpResult)
    → All (λ t. t.status ≢ Status.pass) tcp
    → (t : TcpResult) × Memᴰ t tcp × (t.status ≡ Status.pass)
    → ⊥
no_connection [] h (t, m, e) = elim m [ ]
no_connection (x ∷ tcp) h (t, head same, e) = h.0 (ap (λ (t : TcpResult). t.status) (sym same) ∙ e)
no_connection (x ∷ tcp) h (t, tail m, e) = no_connection tcp h.1 (t, m, e)

quiet_answered :
    (r : DiagnosticReport)
    → All (λ a. a.status ≢ Status.fail) r.application_attempts
    → ApplicationFailed r
    → ⊥
quiet_answered r h (n, f) = go r.application_attempts n h f
  where
    go :
        (xs : List ApplicationReport)
        → xs ≢ []
        → All (λ a. a.status ≢ Status.fail) xs
        → All (λ a. a.status ≡ Status.fail) xs
        → ⊥
    go [] n h f = n refl
    go (x ∷ xs) n h f = h.0 f.0

fail_or_not : (s : Status) → (s ≡ Status.fail) ⊎ (s ≢ Status.fail)
fail_or_not Status.pass = inr (λ e. cc)
fail_or_not Status.warn = inr (λ e. cc)
fail_or_not Status.fail = inl refl
fail_or_not Status.skip = inr (λ e. cc)

fail_of_exit :
    (s : Status) (code : ℕ) → code ≡ (if is_failure s then 1 else 0) → code ≡ 1 → s ≡ Status.fail
fail_of_exit s code e h = ground arith

exit_of_fail :
    (s : Status) (code : ℕ) → code ≡ (if is_failure s then 1 else 0) → s ≡ Status.fail → code ≡ 1
exit_of_fail s code e h = ground arith

module _ (r : DiagnosticReport) where
  worked_reachable : TcpWorked r → (ApplicationFailed r → ⊥) → IsUnreachable r → ⊥
  worked_reachable (direct, resolved, there) ok (inl (_, inl e)) = resolved e
  worked_reachable (direct, resolved, there) ok (inl (_, inr (inl (_, _, all)))) =
      no_connection r.tcp all there
  worked_reachable (direct, resolved, there) ok (inl (_, inr (inr (_, failed)))) = ok failed
  worked_reachable (direct, resolved, there) ok (inr (uses, _)) = not_both r uses direct

  answered_reachable : Answered r → IsUnreachable r → ⊥
  answered_reachable (inr (worked, ok)) u = worked_reachable worked ok u
  answered_reachable (inl (uses, proxy, ok)) (inl (direct, _)) = not_both r uses direct
  answered_reachable (inl (uses, proxy, ok)) (inr (_, inl failed)) = proxy failed
  answered_reachable (inl (uses, proxy, ok)) (inr (_, inr failed)) = ok failed

  failed_unreachable : UsesProxy r ⊎ TcpWorked r → ApplicationFailed r → IsUnreachable r
  failed_unreachable (inl uses) failed = inr (uses, inr failed)
  failed_unreachable (inr worked) failed = inl (worked.0, inr (inr (worked, failed)))

  reachable :
      (code : DiagnosisCode) (cause : Option String)
      → Names r code cause
      → overall_of code ≢ Status.fail
      → IsUnreachable r
      → ⊥
  reachable DiagnosisCode.connectivity_ok cause (inl worked, _) n u =
      answered_reachable (inl worked) u
  reachable DiagnosisCode.connectivity_ok cause (inr (worked, quiet), _) n u =
      worked_reachable worked (quiet_answered r quiet) u
  reachable DiagnosisCode.address_family_partial cause (worked, quiet, _) n u =
      worked_reachable worked (quiet_answered r quiet) u
  reachable DiagnosisCode.application_address_partial cause (worked, _, (a, m, e), _) n u =
      worked_reachable worked
        (λ failed.
          let (b, same, f) = All-mem r.application_attempts failed.1 m in
          e (ap (λ (a : ApplicationReport). a.status) same ∙ f))
        u
  reachable DiagnosisCode.http_error_status cause (answered, _) n u = answered_reachable answered u
  reachable _ cause h n u = n refl

  failure_of : (cause : Option String) → ProxyCause r cause → ProxyFailed r
  failure_of cause (inl (rejected, _)) = inl rejected
  failure_of cause (inr (inl (unprepared, _))) = inr (inl unprepared)
  failure_of cause (inr (inr (unconnected, _))) = inr (inr unconnected)

  unreachable :
      (code : DiagnosisCode) (cause : Option String)
      → Names r code cause
      → overall_of code ≡ Status.fail
      → IsUnreachable r
  unreachable DiagnosisCode.dns_resolution_failed cause (direct, e, _) n = inl (direct, inl e)
  unreachable DiagnosisCode.tcp_connection_refused cause (f, _, _) n = inl (f.0, inr (inl f))
  unreachable DiagnosisCode.no_route cause (f, _, _) n = inl (f.0, inr (inl f))
  unreachable DiagnosisCode.tcp_timeout cause (f, _, _) n = inl (f.0, inr (inl f))
  unreachable DiagnosisCode.tcp_connect_failed cause (f, _) n = inl (f.0, inr (inl f))
  unreachable DiagnosisCode.application_connect_failed cause (worked, failed, _) n =
      failed_unreachable (inr worked) failed
  unreachable DiagnosisCode.proxy_connection_failed cause (uses, failed) n =
      inr (uses, inl (failure_of cause failed))
  unreachable DiagnosisCode.tls_handshake_failed cause (arrived, failed, _) n =
      failed_unreachable arrived failed
  unreachable DiagnosisCode.http_exchange_failed cause (arrived, failed, _) n =
      failed_unreachable arrived failed
  unreachable _ cause h n = cc

  IsSound-of : (r' : DiagnosticReport) → explain r ≡ some r' → IsSound r r'
  IsSound-of r' e =
      let (x, ex, sound) = explain-IsSound r in
      subst (IsSound r) (some-injective _ _ (sym ex ∙ e)) sound

  -- The exit code of the explained report is 1 exactly when nothing answered: DNS failed, no address
  -- connected, every attempt at the application protocol failed, or the proxy failed.
  pub exit_code-explain :
      (r' : DiagnosticReport) → explain r ≡ some r' → (r'.exit_code ≡ 1) ↔ IsUnreachable r
  exit_code-explain r' e =
      let sound = IsSound-of r' e in
      (
        (λ one.
            unreachable r'.diagnosis.code r'.diagnosis.likely_cause sound.named
              (sym sound.outcome ∙ fail_of_exit r'.overall r'.exit_code sound.exit one)),
        (λ u. elim (fail_or_not (overall_of r'.diagnosis.code)) [
          | inl f ↦ exit_of_fail r'.overall r'.exit_code sound.exit (sound.outcome ∙ f)
          | inr n ↦ absurd (reachable r'.diagnosis.code r'.diagnosis.likely_cause sound.named n u)
        ]),
      )
