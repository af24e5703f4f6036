-- ===== src/Diagnosis/TcpFacts.antt =====
-- What the tests on the results of TCP of src/diagnosis.rs decide, in the terms of the specification.
use mathlib.Core.Path.{subst}
use mathlib.Core.List.{Memᴰ}
use mathlib.Core.List.Memᴰ.{head, tail}
use netwhy.Prelude.{
  Bool, String, ◌≡◌, ◌≢◌, ◌⊎◌, inl, inr, refl, ap, true, false, none, some, Option, List, [], ◌∷◌,
  arith, eq_iff, ◌==◌, mem_of_any, All-of_not_any, nonempty, keep, mem-keep, mem_of_mem-keep,
  All-of_All-keep, any, is_empty, is_some_and, contains_text, str_eq, All, All-of_all, All-imp,
  Bool-cases,
}
use netwhy.Model.{Status, is_pass, AddressFamily, family_eq, TcpResult, RouteResult}
use netwhy.Diagnosis.{successful}
use netwhy.Diagnosis.Transport.{all_tcp_errors, has_no_route, family_state}

pub not_successful :
    (tcp : List TcpResult) → (successful tcp == 0) ≡ true → All (λ t. t.status ≢ Status.pass) tcp
not_successful [] h = tt
not_successful (t ∷ tcp) h = (ground arith, not_successful tcp (ground arith))

pub successful_some :
    (tcp : List TcpResult)
    → (successful tcp == 0) ≡ false
    → (t : TcpResult) × Memᴰ t tcp × (t.status ≡ Status.pass)
successful_some [] h = cc
successful_some (t ∷ tcp) h = elim (Bool-cases (is_pass t.status)) [
  | inl e ↦ (t, head refl, ground arith)
  | inr e ↦ let (u, m, q) = successful_some tcp (ground arith) in (u, tail m, q)
]

abbrev unreachable : List String
unreachable = "network_unreachable" ∷ "host_unreachable" ∷ []

module _ (tcp : List TcpResult) where
  pub all_tcp_errors_sound :
      (kinds : List String)
      → all_tcp_errors tcp kinds ≡ true
      → (tcp ≢ [])
        × All
            (λ t. (kind : String) × (t.error_kind ≡ some kind) × (contains_text kinds kind ≡ true))
            tcp
  unfolding all_tcp_errors
  all_tcp_errors_sound kinds h = (
    nonempty (λ (t : TcpResult). true) tcp (ground arith),
    All-imp (λ t. with_kind kinds t.error_kind) tcp
        (All-of_all (λ (t : TcpResult). is_some_and (contains_text kinds) t.error_kind) tcp
          (ground arith)),
  )
    where
      with_kind :
          (kinds : List String) (o : Option String)
          → is_some_and (contains_text kinds) o ≡ true
          → (kind : String) × (o ≡ some kind) × (contains_text kinds kind ≡ true)
      with_kind kinds none h = cc
      with_kind kinds (some kind) h = (kind, refl, h)

  one_kind : (kind other : String) → contains_text (other ∷ []) kind ≡ true → kind ≡ other
  one_kind kind other h = ground (arith, eq_iff kind other)

  pub one_tcp_error :
      (other : String)
      → all_tcp_errors tcp (other ∷ []) ≡ true
      → (tcp ≢ []) × All (λ t. (kind : String) × (t.error_kind ≡ some kind) × (kind ≡ other)) tcp
  one_tcp_error other h =
      let (n, each) = all_tcp_errors_sound (other ∷ []) h in
      (n, All-imp (λ t e. (e.0, e.1, one_kind e.0 other e.2)) tcp each)

  pub has_no_route_sound :
      (routes : List RouteResult)
      → has_no_route tcp routes ≡ true
      → ((tcp ≢ [])
          × All
              (λ t.
                (kind : String) × (t.error_kind ≡ some kind)
                × ((kind ≡ "network_unreachable") ⊎ (kind ≡ "host_unreachable")))
              tcp)
        ⊎ ((routes ≢ []) × All (λ route. route.error_kind ≡ some "no_route") routes)
  unfolding has_no_route
  has_no_route_sound routes h = elim (Bool-cases (all_tcp_errors tcp unreachable)) [
    | inl e ↦
        let (n, each) = all_tcp_errors_sound unreachable e in
        inl (n, All-imp (λ t e. (e.0, e.1, two_kinds e.0 e.2)) tcp each)
    | inr e ↦ inr (
      nonempty (λ (r : RouteResult). true) routes (ground arith),
      All-imp (λ r. no_route_kind r.error_kind) routes
          (All-of_all
            (λ (r : RouteResult). is_some_and (λ kind. str_eq kind "no_route") r.error_kind) routes
            (ground arith)),
    )
  ]
    where
      two_kinds :
          (kind : String)
          → contains_text unreachable kind ≡ true
          → (kind ≡ "network_unreachable") ⊎ (kind ≡ "host_unreachable")
      two_kinds kind h =
          ground (arith, eq_iff kind "network_unreachable", eq_iff kind "host_unreachable")

      no_route_kind :
          (o : Option String)
          → is_some_and (λ kind. str_eq kind "no_route") o ≡ true
          → o ≡ some "no_route"
      no_route_kind none h = cc
      no_route_kind (some kind) h = ap some ((eq_iff kind "no_route").0 h)

-- The states of a family: not resolved, connected, or resolved without a connection.
abbrev pub FamilyState : List TcpResult → AddressFamily → Option Bool → Type 0
FamilyState tcp family none = Unit
FamilyState tcp family (some true) =
    (t : TcpResult) × Memᴰ t tcp × (t.family ≡ family) × (t.status ≡ Status.pass)
FamilyState tcp family (some false) =
    ((t : TcpResult) × Memᴰ t tcp × (t.family ≡ family))
    × All (λ t. t.family ≡ family → t.status ≢ Status.pass) tcp

module _ (tcp : List TcpResult) (family : AddressFamily) where
  abbrev in_family : TcpResult → Bool
  in_family t = family_eq t.family family

  same_family : (t : TcpResult) → in_family t ≡ true → t.family ≡ family
  same_family t h = ground arith

  first_of_family :
      (kept : List TcpResult)
      → is_empty kept ≡ false
      → ((t : TcpResult) → Memᴰ t kept → Memᴰ t tcp × (t.family ≡ family))
      → (t : TcpResult) × Memᴰ t tcp × (t.family ≡ family)
  first_of_family [] h f = cc
  first_of_family (t ∷ kept) h f = let (m, e) = f t (head refl) in (t, m, e)

  of_kept : (t : TcpResult) → Memᴰ t (keep in_family tcp) → Memᴰ t tcp × (t.family ≡ family)
  of_kept t m = (mem_of_mem-keep in_family tcp m, same_family t (mem-keep in_family tcp m))

  state_of :
      (b : Bool)
      → any (λ (t : TcpResult). is_pass t.status) (keep in_family tcp) ≡ b
      → is_empty (keep in_family tcp) ≡ false
      → FamilyState tcp family (some b)
  state_of true e n =
      let (t, m, q) = mem_of_any (λ (t : TcpResult). is_pass t.status) (keep in_family tcp) e in
      let (there, same) = of_kept t m in (t, there, same, ground arith)
  state_of false e n = (
    first_of_family (keep in_family tcp) n of_kept,
    All-imp (λ t f same. not_pass t.status (f (ground arith))) tcp
        (All-of_All-keep in_family _ tcp
          (All-of_not_any (λ (t : TcpResult). is_pass t.status) (keep in_family tcp) e)),
  )
    where
      not_pass : (s : Status) → is_pass s ≡ false → s ≢ Status.pass
      not_pass s h = ground arith

  pub family_state_sound : FamilyState tcp family (family_state tcp family)
  unfolding family_state
  family_state_sound = elim (Bool-cases (is_empty (keep in_family tcp))) [
    | inl e ↦ rw e tt
    | inr e ↦ rw e (state_of _ refl e)
  ]

-- The two families differ.
pub asymmetric_sound :
    (tcp : List TcpResult) (works fails : AddressFamily)
    → family_state tcp works ≡ some true
    → family_state tcp fails ≡ some false
    → FamilyState tcp works (some true) × FamilyState tcp fails (some false)
asymmetric_sound tcp works fails h k = (
  subst (FamilyState tcp works) h (family_state_sound tcp works),
  subst (FamilyState tcp fails) k (family_state_sound tcp fails),
)
