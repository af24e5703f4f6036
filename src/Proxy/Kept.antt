-- ===== src/Proxy/Kept.antt =====
-- What every plan of src/proxy.rs keeps to.
use mathlib.Core.Path.{subst}
use netwhy.Prelude.{
  ℕ, zero, suc, ◌≤◌, ◌≡◌, ◌≢◌, inl, inr, refl, sym, true, false, not, ◌&&◌, String, Option, none,
  some, List, [], ◌∷◌, str_eq, decimal, ◌<>◌, is_some, arith, All, any, is_empty, length, nonempty,
  Bool-cases, All-imp, map_option, unwrap_or,
}
use netwhy.Prelude.Results.{Result, on_ok, context, ok-injective}
use netwhy.Net.{SocketAddr, ip, addr_eq}
use netwhy.Net.Order.{addr_eq_iff}
use netwhy.Net.Least.{AreDistinct}
use netwhy.Model.{Status, AddressFamilySelection, ProxyTransportEvidence}
use netwhy.Url.{Url, Readers, Host, host_text, host_str, port_or_known_default}
use netwhy.Target.{Target}
use netwhy.Proxy.{
  max_proxy_addresses, SelectedProxy, address_family_allows, ProxyPlan, unavailable_proxy,
  is_proxy_scheme, has_location, check_proxy_url, ProxyLookup, select_addresses,
}
use netwhy.Proxy.Bypass.{Environment, no_proxy_matches}
use netwhy.Proxy.Plan.{
  ProxyMode, ProxyArgs, selected_family, family_conflict, candidate, parse_proxy_url, redact_url,
  of_lookup, of_host, resolve_url, read_outcome, resolve_proxy, plan_value, plan_mode, plan,
}

-- The addresses of a selected proxy: at most `room` more, none seen before, no two the same, and each
-- of the family.
abbrev AreSelected : AddressFamilySelection → ℕ → List SocketAddr → List SocketAddr → Type 0
AreSelected family room seen xs =
    (length xs ≤ room)
    × AreDistinct (λ a. a) xs
    × All (λ a. any (addr_eq a) seen ≡ false) xs
    × All (λ a. address_family_allows family (ip a) ≡ true) xs

unseen_head :
    (a : SocketAddr) (seen xs : List SocketAddr)
    → All (λ b. any (addr_eq b) (a ∷ seen) ≡ false) xs
    → All (λ b. a ≢ b) xs × All (λ b. any (addr_eq b) seen ≡ false) xs
unseen_head a seen xs h =
    (All-imp (λ b k e. differs b k e) xs h, All-imp (λ b k. ground arith) xs h)
  where
    differs : (b : SocketAddr) → any (addr_eq b) (a ∷ seen) ≡ false → a ≢ b
    differs b k e = ground (arith, (addr_eq_iff b a).1 (sym e))

select_addresses-AreSelected :
    (family : AddressFamilySelection) (room : ℕ) (seen xs : List SocketAddr)
    → AreSelected family room seen (select_addresses family room seen xs)
select_addresses-AreSelected family zero seen xs = (omega arith, tt, tt, tt)
select_addresses-AreSelected family (suc room) seen [] = (omega arith, tt, tt, tt)
select_addresses-AreSelected family (suc room) seen (a ∷ xs) =
    elim (Bool-cases (address_family_allows family (ip a) && not (any (addr_eq a) seen))) [
      | inl e ↦
          let (len, distinct, unseen, allowed) =
            select_addresses-AreSelected family room (a ∷ seen) xs in
          let (differ, before) = unseen_head a seen _ unseen in
          rw e (omega arith, (differ, distinct), (ground arith, before), (ground arith, allowed))
      | inr e ↦ rw e (select_addresses-AreSelected family (suc room) seen xs)
    ]

-- A proxy that was selected: its scheme is known, its URL has a host and no path, query or fragment,
-- and it has one to sixteen addresses, no two the same, each of the family that was asked for.
pub record IsUsable (asked : AddressFamilySelection) (proxy : SelectedProxy) : Type 0 where
  pub scheme : is_proxy_scheme proxy.url.scheme ≡ true
  pub host : is_some proxy.url.host ≡ true
  pub location : has_location proxy.url ≡ false
  pub family : proxy.address_family ≡ asked
  pub some_address : proxy.addresses ≢ []
  pub few : length proxy.addresses ≤ max_proxy_addresses
  pub distinct : AreDistinct (λ a. a) proxy.addresses
  pub allowed : All (λ a. address_family_allows asked (ip a) ≡ true) proxy.addresses

-- The evidence of a transport that is not to be had.
abbrev pub IsFailure : ProxyTransportEvidence → Type 0
IsFailure e =
    (e.status ≡ Status.fail)
    × (e.attempts ≡ [])
    × (e.bypassed ≡ false)
    × (e.error_kind ≢ none)
    × (e.error ≢ none)

-- What a plan keeps to: no panic, an error only of an explicit URL, no failure where the connection is direct.
abbrev pub KeepsPlan : ProxyArgs → Option (Result ProxyPlan) → Type 0
KeepsPlan args none = ⊥
KeepsPlan args (some (Result.err error)) = args.proxy_url ≢ none
KeepsPlan args (some (Result.ok (ProxyPlan.direct e))) =
    (args.proxy_url ≡ none) × (e.attempts ≡ []) × (e.error_kind ≡ none)
KeepsPlan args (some (Result.ok (ProxyPlan.proxy p))) = IsUsable (selected_family args) p
KeepsPlan args (some (Result.ok (ProxyPlan.unavailable e))) = IsFailure e

-- The URL of a proxy passed the tests.
abbrev IsChecked : Url → Type 0
IsChecked url =
    (is_proxy_scheme url.scheme ≡ true) × (is_some url.host ≡ true) × (has_location url ≡ false)

check_proxy_url-inv :
    (url checked : Url) → check_proxy_url url ≡ Result.ok checked → IsChecked checked
unfolding check_proxy_url
check_proxy_url-inv url checked e = elim (Bool-cases (is_proxy_scheme url.scheme)) [
  | inr s ↦ absurd (err_ne_ok _ (rw s at e))
  | inl s ↦ elim (Bool-cases (is_some url.host)) [
    | inr h ↦ absurd (err_ne_ok _ (rw (s, h) at e))
    | inl h ↦ elim (Bool-cases (has_location url)) [
      | inl l ↦ absurd (err_ne_ok _ (rw (s, h, l) at e))
      | inr l ↦ subst IsChecked (ok-injective url checked (rw (s, h, l) at e)) (s, h, l)
    ]
  ]
]
  where
    err_ne_ok : (error : String) → Result.err error ≢ Result.ok checked
    err_ne_ok error k = cc

module _ (args : ProxyArgs) where
  Keeps-unavailable :
      (mode : String) (shown : Option String) (kind error : String)
      → KeepsPlan args (some (Result.ok (unavailable_proxy mode shown kind error)))
  unfolding unavailable_proxy
  Keeps-unavailable mode shown kind error = (refl, refl, refl, (λ e. cc), (λ e. cc))

  module _ (readers : Readers) (target : Target) (timeout_ms : ℕ)
      (lookup : String → ℕ → ProxyLookup) where
    Keeps-of_lookup :
        (mode : String) (url : Url) (answer : ProxyLookup)
        → IsChecked url
        → KeepsPlan args
            (some (Result.ok (of_lookup readers mode url (selected_family args) timeout_ms answer)))
    unfolding of_lookup
    Keeps-of_lookup mode url (ProxyLookup.found resolved) (s, h, l) =
        elim (Bool-cases (is_empty chosen)) [
          | inl e ↦ rw e (
              Keeps-unavailable mode (some (redact_url readers url)) "no_addresses"
                "proxy DNS resolution returned no addresses in the selected address family")
          | inr e ↦ rw e (record {
            scheme = s;
            host = h;
            location = l;
            family = refl;
            some_address = nonempty (λ a. true) chosen e;
            few = selected.0;
            distinct = selected.1;
            allowed = selected.3;
          })
        ]
      where
        chosen : List SocketAddr
        chosen = select_addresses (selected_family args) max_proxy_addresses [] resolved

        selected : AreSelected (selected_family args) max_proxy_addresses [] chosen
        selected =
            select_addresses-AreSelected (selected_family args) max_proxy_addresses [] resolved
    Keeps-of_lookup mode url (ProxyLookup.failed error) h =
        Keeps-unavailable mode (some (redact_url readers url)) "resolver_error"
          ("could not resolve proxy host: " <> error)
    Keeps-of_lookup mode url ProxyLookup.timed_out h =
        Keeps-unavailable mode (some (redact_url readers url)) "timeout"
          ("proxy DNS resolution timed out after " <> (decimal timeout_ms <> " ms"))

    -- A URL that passed the tests has a host.
    Keeps-of_host :
        (mode : String) (url : Url) (host : Option Host)
        → is_some host ≡ true
        → IsChecked url
        → KeepsPlan args (
            map_option
              (λ (p : ProxyPlan). Result.ok p)
              (of_host readers mode url
                (selected_family args)
                timeout_ms
                lookup
                (map_option host_text host)))
    Keeps-of_host mode url none e h = absurd (cc)
    Keeps-of_host mode url (some host) e h =
        Keeps-of_lookup mode url
          (lookup (host_text host) (unwrap_or 1080 (port_or_known_default url))) h

    Keeps-resolve_url :
        (mode : String) (url : Url)
        → IsChecked url
        → KeepsPlan args (
            map_option
              (λ (p : ProxyPlan). Result.ok p)
              (resolve_url readers mode url target (selected_family args) timeout_ms lookup))
    unfolding resolve_url
    Keeps-resolve_url mode url h =
        elim (family_conflict (selected_family args) target.literal_address url.scheme)
          as (λ o. KeepsPlan args (
            map_option (λ (p : ProxyPlan). Result.ok p)
              (elim o [
                | some (kind, error) ↦
                    some (unavailable_proxy mode (some (redact_url readers url)) kind error)
                | none ↦
                    of_host readers mode url (selected_family args) timeout_ms lookup (host_str url)
              ]))) [
                | some (kind, error) ↦
                    Keeps-unavailable mode (some (redact_url readers url)) kind error
                | none ↦ Keeps-of_host mode url url.host h.1 h
              ]

    checked :
        (value : String) (read : Result Url) (url : Url)
        → on_ok (context "invalid proxy URL" read) check_proxy_url ≡ Result.ok url
        → IsChecked url
    checked value (Result.ok raw) url e = check_proxy_url-inv raw url e
    checked value (Result.err error) url e = absurd (err_ne_ok e)
      where
        err_ne_ok : Result.err "invalid proxy URL" ≢ Result.ok url
        err_ne_ok k = cc

    Keeps-read_outcome :
        (mode : String) (read : Result Url)
        → (str_eq mode "environment" ≡ false → args.proxy_url ≢ none)
        → ((url : Url) → read ≡ Result.ok url → IsChecked url)
        → KeepsPlan args
            (read_outcome readers mode target (selected_family args) timeout_ms lookup read)
    Keeps-read_outcome mode (Result.ok url) x h = Keeps-resolve_url mode url (h url refl)
    Keeps-read_outcome mode (Result.err error) x h = elim (Bool-cases (str_eq mode "environment")) [
      | inl e ↦ rw e (Keeps-unavailable mode none "invalid_config" error)
      | inr e ↦ rw e (x e)
    ]

    Keeps-plan_value :
        (mode : String) (value : Option String)
        → (str_eq mode "environment" ≡ false → args.proxy_url ≢ none)
        → KeepsPlan args (plan_value readers args target timeout_ms lookup mode value)
    unfolding resolve_proxy parse_proxy_url
    Keeps-plan_value mode none x =
        Keeps-unavailable mode none "not_configured"
          "proxy transport was requested but no applicable proxy was configured"
    Keeps-plan_value mode (some value) x =
        Keeps-read_outcome mode _ x
          (λ url e. checked value (readers.read_url (candidate readers value)) url e)

    Keeps-plan_mode :
        (variables : Environment) (mode : ProxyMode)
        → args.proxy_url ≡ none
        → KeepsPlan args (plan_mode readers args target variables timeout_ms lookup mode)
    Keeps-plan_mode variables ProxyMode.direct n = (n, refl, refl)
    Keeps-plan_mode variables ProxyMode.environment n =
        elim (Bool-cases (no_proxy_matches readers.read_ip target.host target.port variables)) [
          | inl e ↦ rw e (n, refl, refl)
          | inr e ↦ rw e (Keeps-plan_value "environment" _ (λ k. cc))
        ]

    -- Whatever the arguments, the environment and the answer of the resolver: planning does not panic for
    -- a proxy URL without a host; it is an error only where an explicit proxy was asked for; a direct connection is planned only where none was; a proxy
    -- that was selected can be used; and any other plan is a failure that names its kind.
    pub plan-KeepsPlan :
        (variables : Environment)
        → KeepsPlan args (plan readers args target variables timeout_ms lookup)
    unfolding plan
    plan-KeepsPlan variables = by_url args.proxy_url refl
      where
        by_url :
            (o : Option String)
            → args.proxy_url ≡ o
            → KeepsPlan args (elim o [
              | some explicit ↦
                  plan_value readers args target timeout_ms lookup "explicit" (some explicit)
              | none ↦ plan_mode readers args target variables timeout_ms lookup args.proxy_mode
            ])
        by_url none n = Keeps-plan_mode variables args.proxy_mode n
        by_url (some explicit) n = Keeps-plan_value "explicit" (some explicit) (λ e k. cc)
