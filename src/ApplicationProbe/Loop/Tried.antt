-- ===== src/ApplicationProbe/Loop/Tried.antt =====
-- `probe` of src/probe/application.rs: the addresses that it tries, in which order, and what it finds.
use netwhy.Prelude.{
  ℕ, ◌≤◌, Bool, true, false, ◌≡◌, refl, ap, List, [], ◌∷◌, map, any, keep, All, String, Bool-cases,
  inl, inr, arith, leb, ◌==◌, ◌∙◌, str_eq, All-imp,
}
use netwhy.Net.{SocketAddr}
use netwhy.Model.{TcpResult, is_pass}
use netwhy.Target.{Target}
use netwhy.ApplicationProbe.Attempt.{Run, Opening}
use netwhy.ApplicationProbe.Loop.{
  insert_by_duration, sort_by_duration, candidates, is_answered, attempt_on, probe,
}
use netwhy.ApplicationProbe.Loop.Until.{IsRun, until-IsRun, any-until}

-- The fastest first
abbrev pub IsAscending : List TcpResult → Type 0
IsAscending [] = Unit
IsAscending (r ∷ rs) = All (λ (x : TcpResult). r.duration_ms ≤ x.duration_ms) rs × IsAscending rs

-- The results that took so long
abbrev pub of_duration : ℕ → List TcpResult → List TcpResult
of_duration d rs = keep (λ (r : TcpResult). r.duration_ms == d) rs

of_duration-insert :
    (d : ℕ) (r : TcpResult) (xs : List TcpResult)
    → of_duration d (insert_by_duration r xs) ≡ of_duration d (r ∷ xs)
of_duration-insert d r [] = refl
of_duration-insert d r (x ∷ xs) = elim (Bool-cases (leb r.duration_ms x.duration_ms)) [
  | inl b ↦ rw b refl
  | inr b ↦ elim (Bool-cases (x.duration_ms == d)) [
    | inl e ↦
        let other : (r.duration_ms == d) ≡ false = ground arith in
        let later = of_duration-insert d r xs in
        rw (b, e, other) (ap (λ t. x ∷ t) (rw other at later))
    | inr e ↦ rw (b, e) (of_duration-insert d r xs)
  ]
]

of_duration-sort :
    (d : ℕ) (xs : List TcpResult) → of_duration d (sort_by_duration xs) ≡ of_duration d xs
of_duration-sort d [] = refl
of_duration-sort d (x ∷ xs) =
    of_duration-insert d x (sort_by_duration xs) ∙ rw (of_duration-sort d xs) refl

abbrev AreSlower : ℕ → List TcpResult → Type 0
AreSlower n rs = All (λ (x : TcpResult). n ≤ x.duration_ms) rs

leb→le : (m n : ℕ) → leb m n ≡ true → m ≤ n
leb→le m n h = ground arith

AreSlower-insert :
    (n : ℕ) (r : TcpResult) (xs : List TcpResult)
    → n ≤ r.duration_ms
    → AreSlower n xs
    → AreSlower n (insert_by_duration r xs)
AreSlower-insert n r [] h k = (h, tt)
AreSlower-insert n r (x ∷ xs) h k = elim (Bool-cases (leb r.duration_ms x.duration_ms)) [
  | inl b ↦ rw b (h, k)
  | inr b ↦ rw b (k.0, AreSlower-insert n r xs h k.1)
]

IsAscending-insert :
    (r : TcpResult) (xs : List TcpResult) → IsAscending xs → IsAscending (insert_by_duration r xs)
IsAscending-insert r [] h = (tt, tt)
IsAscending-insert r (x ∷ xs) h = elim (Bool-cases (leb r.duration_ms x.duration_ms)) [
  | inl b ↦ rw b (
    (
      ground arith,
      All-imp (λ (y : TcpResult) le. omega (arith, le, leb→le r.duration_ms x.duration_ms b)) xs
          h.0,
    ),
    h,
  )
  | inr b ↦
      rw b (AreSlower-insert x.duration_ms r xs (ground arith) h.0, IsAscending-insert r xs h.1)
]

IsAscending-sort : (xs : List TcpResult) → IsAscending (sort_by_duration xs)
IsAscending-sort [] = tt
IsAscending-sort (x ∷ xs) = IsAscending-insert x (sort_by_duration xs) (IsAscending-sort xs)

-- The addresses are tried in the order of the durations of the TCP results that passed; those of the same
-- duration are tried in the order of the report.
pub candidates-IsStableOrder :
    (rs : List TcpResult)
    → IsAscending (candidates rs)
      × ((d : ℕ)
          → of_duration d (candidates rs)
            ≡ of_duration d (keep (λ (r : TcpResult). is_pass r.status) rs))
unfolding candidates
candidates-IsStableOrder rs = (
  IsAscending-sort (keep (λ (r : TcpResult). is_pass r.status) rs),
  λ d. of_duration-sort d (keep (λ (r : TcpResult). is_pass r.status) rs),
)

-- For a target that is not of the scheme `tcp`, the reports are those of the attempts on the first candidates:
-- on all of them, and no attempt is answered, or up to the first whose attempt is answered.
pub probe-IsRun :
    (version : String) (target : Target) (rs : List TcpResult) (timeout_ms : ℕ)
    (outside : SocketAddr → Run × Opening)
    → str_eq target.scheme "tcp" ≡ false
    → IsRun is_answered
        (attempt_on version target timeout_ms outside)
        (candidates rs)
        (probe version target rs timeout_ms outside)
unfolding probe
probe-IsRun version target rs timeout_ms outside h =
    rw h (until-IsRun is_answered (attempt_on version target timeout_ms outside) (candidates rs))

any-insert :
    (p : TcpResult → Bool) (r : TcpResult) (xs : List TcpResult)
    → any p (insert_by_duration r xs) ≡ any p (r ∷ xs)
any-insert p r [] = refl
any-insert p r (x ∷ xs) = elim (Bool-cases (leb r.duration_ms x.duration_ms)) [
  | inl b ↦ rw b refl
  | inr b ↦ rw b (ground (arith, any-insert p r xs))
]

any-sort : (p : TcpResult → Bool) (xs : List TcpResult) → any p (sort_by_duration xs) ≡ any p xs
any-sort p [] = refl
any-sort p (x ∷ xs) = any-insert p x (sort_by_duration xs) ∙ rw (any-sort p xs) refl

any-map :
    {A B : Type 0} (p : B → Bool) (f : A → B) (xs : List A)
    → any p (map f xs) ≡ any (λ x. p (f x)) xs
any-map p f [] = refl
any-map p f (x ∷ xs) = rw (any-map p f xs) refl

-- For a target that is not of the scheme `tcp`, some report is answered exactly if the attempt on the address
-- of some TCP result that passed would be: stopping early and the order lose no answer.
pub probe-answers :
    (version : String) (target : Target) (rs : List TcpResult) (timeout_ms : ℕ)
    (outside : SocketAddr → Run × Opening)
    → str_eq target.scheme "tcp" ≡ false
    → any is_answered (probe version target rs timeout_ms outside)
      ≡ any
          (λ r. is_answered (attempt_on version target timeout_ms outside r))
          (keep (λ (r : TcpResult). is_pass r.status) rs)
unfolding probe candidates
probe-answers version target rs timeout_ms outside h =
    let attempt = attempt_on version target timeout_ms outside in
    rw h (
      any-until is_answered attempt (candidates rs)
      ∙ (any-map is_answered attempt (candidates rs) ∙ any-sort (λ r. is_answered (attempt r)) _))
