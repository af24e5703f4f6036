-- ===== src/Dns/Result.antt =====
-- What `resolve` of src/probe/dns.rs reports.
use netwhy.Prelude.{
  ℕ, zero, suc, ◌≤◌, ◌≡◌, ◌≢◌, ◌⊎◌, refl, sym, Bool, true, false, not, ◌&&◌, ◌||◌, String, Option,
  none, some, List, [], ◌∷◌, arith, keep, take, length, is_empty, length-take, nonempty, empty, All,
  All-imp, Bool-cases, inl, inr, ltb, or_else, map_option,
}
use netwhy.Net.{SocketAddr, IpAddr, addr_eq, is_ipv4, is_ipv6, socket}
use netwhy.Net.Order.{addr_eq_iff}
use netwhy.Net.Least.{AreDistinct, AreDistinct-keep, All-keep}
use netwhy.Model.{Status, DnsResult}
use netwhy.Dns.{
  max_addresses, Collected, has_seen, is_excluded, collect, nothing_collected, resolved_result,
  Lookup, failure, resolve_lookup, literal_result, resolve,
}
use netwhy.Dns.Selection.{firsts, wanted, Takes, collect_lem, keep-true}

-- The result says that it failed, and why, exactly when it has no addresses.
abbrev pub IsConsistent : DnsResult → Type 0
IsConsistent r =
    ((r.status ≡ Status.pass) × (r.addresses ≢ []) × (r.error_kind ≡ none) × (r.error ≡ none))
    ⊎ ((r.status ≡ Status.fail) × (r.addresses ≡ []) × (r.error_kind ≢ none) × (r.error ≢ none))

some-ne-none {ℓ} : {A : Type ℓ} (a : A) → some a ≢ none
some-ne-none a e = cc

module _ {A : Type 0} where
  All-take {κ} : (P : A → Type κ) (n : ℕ) (xs : List A) → All P xs → All P (take n xs)
  All-take P zero xs h = tt
  All-take P (suc n) [] h = tt
  All-take P (suc n) (x ∷ xs) h = (h.0, All-take P n xs h.1)

  All-keep_self : (p : A → Bool) (xs : List A) → All (λ x. p x ≡ true) (keep p xs)
  All-keep_self p [] = tt
  All-keep_self p (x ∷ xs) = elim (Bool-cases (p x)) [
    | inl e ↦ rw e (e, All-keep_self p xs)
    | inr e ↦ rw e (All-keep_self p xs)
  ]

abbrev Distinct : List SocketAddr → Type 0
Distinct xs = AreDistinct (λ a. a) xs

Distinct-take : (n : ℕ) (xs : List SocketAddr) → Distinct xs → Distinct (take n xs)
Distinct-take zero xs h = tt
Distinct-take (suc n) [] h = tt
Distinct-take (suc n) (x ∷ xs) h = (All-take _ n xs h.0, Distinct-take n xs h.1)

Distinct-firsts : (xs : List SocketAddr) → Distinct (firsts xs)
unfolding firsts
Distinct-firsts [] = tt
Distinct-firsts (a ∷ xs) = (
  All-imp (λ b h e. absurd (differs a b e h)) (keep (λ b. not (addr_eq b a)) (firsts xs))
      (All-keep_self (λ b. not (addr_eq b a)) (firsts xs)),
  AreDistinct-keep (λ a. a) (λ b. not (addr_eq b a)) (firsts xs) (Distinct-firsts xs),
)
  where
    differs : (a b : SocketAddr) → a ≡ b → not (addr_eq b a) ≢ true
    differs a b e h = ground (arith, (addr_eq_iff b a).1 (sym e))

All-firsts {κ} : (P : SocketAddr → Type κ) (xs : List SocketAddr) → All P xs → All P (firsts xs)
unfolding firsts
All-firsts P [] h = tt
All-firsts P (a ∷ xs) h =
    (h.0, All-keep P (λ b. not (addr_eq b a)) (firsts xs) (All-firsts P xs h.1))

module _ (elapsed : ℕ) (resolved : List SocketAddr) (ipv4_only ipv6_only : Bool) where
  abbrev found : Collected
  found = collect ipv4_only ipv6_only resolved nothing_collected

  -- The addresses are the first 32 of the distinct addresses of the family that was asked for, in
  -- the order of the resolver; the result is truncated exactly when there are more; and it passes,
  -- without an error, exactly when there is one.
  pub resolved_result-wanted :
      let r = resolved_result elapsed resolved ipv4_only ipv6_only in
      (r.addresses ≡ take max_addresses (wanted ipv4_only ipv6_only resolved))
      × (r.truncated ≡ ltb max_addresses (length (wanted ipv4_only ipv6_only resolved)))
      × IsConsistent r
  resolved_result-wanted =
      unfold resolved_result in
      elim (Bool-cases (is_empty found.addresses)) [
        | inl e ↦
            rw e (
              taken.0,
              taken.1,
              inr (refl, empty found.addresses e, some-ne-none _, some-ne-none _),
            )
        | inr e ↦
            rw e (taken.0, taken.1, inl (refl, nonempty (λ a. true) found.addresses e, refl, refl))
      ]
    where
      taken : Takes ipv4_only ipv6_only (wanted ipv4_only ipv6_only resolved) false found
      taken =
          rw
            (keep-true (λ a. not (has_seen a [])) (λ a. refl) (wanted ipv4_only ipv6_only resolved))
            at (collect_lem ipv4_only ipv6_only resolved nothing_collected (omega arith))

-- What every answer of the probe keeps to: it is consistent, and its addresses are at most 32, no two
-- the same, and each of the family that was asked for.
abbrev pub Keeps : Bool → Bool → DnsResult → Type 0
Keeps ipv4_only ipv6_only r =
    IsConsistent r
    × (length r.addresses ≤ max_addresses)
    × Distinct r.addresses
    × All (λ a. is_excluded ipv4_only ipv6_only a ≡ false) r.addresses

module _ (ipv4_only ipv6_only : Bool) where
  Keeps-taken :
      (r : DnsResult) (resolved : List SocketAddr)
      → r.addresses ≡ take max_addresses (wanted ipv4_only ipv6_only resolved)
      → IsConsistent r
      → Keeps ipv4_only ipv6_only r
  unfolding wanted
  Keeps-taken r resolved e c = (
    c,
    rw e (length-take max_addresses _),
    rw e (Distinct-take max_addresses _ (Distinct-firsts _)),
    rw e (
        All-take _ max_addresses _ (
          All-firsts _ _ (
            All-imp (λ a h. ground arith) (keep included resolved)
              (All-keep_self included resolved)))),
  )
    where
      included : SocketAddr → Bool
      included a = not (is_excluded ipv4_only ipv6_only a)

  Keeps-failure :
      (elapsed : ℕ) (kind error : String)
      → Keeps ipv4_only ipv6_only (failure elapsed false kind error)
  Keeps-failure elapsed kind error =
      (inr (refl, refl, some-ne-none kind, some-ne-none error), omega arith, tt, tt)

  included :
      (a : SocketAddr)
      → ((ipv4_only && is_ipv6 a) || (ipv6_only && is_ipv4 a)) ≡ false
      → is_excluded ipv4_only ipv6_only a ≡ false
  included (SocketAddr.v4 ip port) h = ground arith
  included (SocketAddr.v6 ip port flow scope) h = ground arith

  module _ (elapsed timeout_ms : ℕ) where
    Keeps-resolve_lookup :
        (lookup : Lookup)
        → Keeps ipv4_only ipv6_only (resolve_lookup elapsed lookup ipv4_only ipv6_only timeout_ms)
    unfolding resolve_lookup
    Keeps-resolve_lookup (Lookup.resolved addresses) =
        let (e, _, c) = resolved_result-wanted elapsed addresses ipv4_only ipv6_only in
        Keeps-taken (resolved_result elapsed addresses ipv4_only ipv6_only) addresses e c
    Keeps-resolve_lookup (Lookup.failed error) = Keeps-failure elapsed _ _
    Keeps-resolve_lookup Lookup.timed_out = Keeps-failure elapsed _ _

    -- The probe keeps to that whatever the target is and whatever the resolver answers.
    pub resolve-Keeps :
        (literal : Option SocketAddr) (host : Option IpAddr) (port : ℕ) (lookup : Lookup)
        → Keeps ipv4_only ipv6_only
            (resolve elapsed literal host port lookup ipv4_only ipv6_only timeout_ms)
    unfolding resolve
    resolve-Keeps literal host port lookup =
        elim (or_else literal (map_option (λ ip. socket ip port) host))
          as (λ o. Keeps ipv4_only ipv6_only (elim o [
            | none ↦ resolve_lookup elapsed lookup ipv4_only ipv6_only timeout_ms
            | some address ↦ literal_result elapsed address ipv4_only ipv6_only
          ])) [ none ↦ Keeps-resolve_lookup lookup | some address ↦ of_literal address ]
      where
        of_literal :
            (address : SocketAddr)
            → Keeps ipv4_only ipv6_only (literal_result elapsed address ipv4_only ipv6_only)
        of_literal address =
            elim (Bool-cases ((ipv4_only && is_ipv6 address) || (ipv6_only && is_ipv4 address))) [
              | inl e ↦ unfold literal_result in rw e (Keeps-failure elapsed _ _)
              | inr e ↦
                  unfold literal_result in
                  rw e (
                    inl (refl, (λ n. cc), refl, refl),
                    omega arith,
                    (tt, tt),
                    (included address e, tt),
                  )
            ]
