-- ===== src/Proxy/Plan.antt =====
-- `plan` and `resolve_proxy` of src/proxy.rs.
use netwhy.Prelude.{
  ℕ, Bool, true, not, ◌||◌, String, ◌<>◌, Option, none, some, [], if◌then◌else◌, str_eq, is_some,
  decimal, is_empty, is_blank, contains_str, unwrap_or, map_option,
}
use netwhy.Prelude.Results.{Result, on_ok, context}
use netwhy.Net.{SocketAddr, ip}
use netwhy.Model.{Status, AddressFamilySelection, ProxyTransportEvidence, default_proxy_transport}
use netwhy.Sanitize.{sanitize_report_text}
use netwhy.Url.{Url, Readers, host_str, port_or_known_default}
use netwhy.Target.{Target}
use netwhy.Proxy.{
  max_proxy_addresses, address_family_allows, ProxyPlan, unavailable_proxy, check_proxy_url,
  select_environment_proxy, ProxyLookup, select_addresses,
}
use netwhy.Proxy.Bypass.{Environment, no_proxy_matches}

-- `ProxyMode` of src/cli.rs
pub data ProxyMode : Type 0 where
  direct environment : ProxyMode

-- The fields of `DiagnosticArgs` of src/cli.rs that the plan reads.
pub record ProxyArgs : Type 0 where
  pub proxy_url : Option String
  pub proxy_mode : ProxyMode
  pub ipv4 : Bool
  pub ipv6 : Bool

abbrev pub bypassed : ProxyTransportEvidence
bypassed = record {
  status = Status.pass;
  mode = "environment";
  selected_proxy = none;
  bypassed = true;
  attempts = [];
  error_kind = none;
  error = none;
}

abbrev pub selected_family : ProxyArgs → AddressFamilySelection
selected_family args =
    if args.ipv4
    then AddressFamilySelection.ipv4
    else if args.ipv6
    then AddressFamilySelection.ipv6
    else AddressFamilySelection.any

-- The guard of `resolve_proxy` on an address family that the proxy could not keep to: the error, where
-- there is one.
unfoldable pub family_conflict :
    AddressFamilySelection → Option SocketAddr → String → Option (String × String)
family_conflict AddressFamilySelection.any literal scheme = none
family_conflict family (some address) scheme =
    if address_family_allows family (ip address)
    then none
    else some ("no_addresses", "the target IP address is excluded by the selected address family")
family_conflict family none scheme =
    if str_eq scheme "socks5"
    then none
    else some (
      "invalid_config",
      "--ipv4/--ipv6 cannot be guaranteed when the selected proxy resolves the target hostname remotely; use a target IP address or a socks5:// proxy",
    )

module _ (readers : Readers) where
  abbrev pub candidate : String → String
  candidate value = if contains_str "://" value then value else "http://" <> value

  unfoldable pub parse_proxy_url : String → Result Url
  unfolding check_proxy_url
  parse_proxy_url value =
      on_ok (context "invalid proxy URL" (readers.read_url (candidate value))) check_proxy_url

  abbrev pub without_userinfo : Url → Url
  without_userinfo url =
      if not (is_blank url.username) || is_some url.password
      then record url { username = "<redacted>"; password = none }
      else url

  unfoldable pub redact_url : Url → String
  unfolding sanitize_report_text
  redact_url url = sanitize_report_text (readers.print_url (without_userinfo url))

  -- The end of `resolve_proxy`, from what the lookup came to.
  unfoldable pub of_lookup : String → Url → AddressFamilySelection → ℕ → ProxyLookup → ProxyPlan
  unfolding unavailable_proxy redact_url
  of_lookup mode url family timeout_ms (ProxyLookup.found resolved) =
      let addresses = select_addresses family max_proxy_addresses [] resolved in
      if is_empty addresses
      then unavailable_proxy mode (some (redact_url url)) "no_addresses"
          "proxy DNS resolution returned no addresses in the selected address family"
      else ProxyPlan.proxy (record {
        url = url;
        redacted_url = redact_url url;
        addresses = addresses;
        address_family = family;
      })
  of_lookup mode url family timeout_ms (ProxyLookup.failed error) =
      unavailable_proxy mode (some (redact_url url)) "resolver_error"
        ("could not resolve proxy host: " <> error)
  of_lookup mode url family timeout_ms ProxyLookup.timed_out =
      unavailable_proxy mode (some (redact_url url)) "timeout"
        ("proxy DNS resolution timed out after " <> (decimal timeout_ms <> " ms"))

  -- The lookup of the proxy's host and port, where there is a host; `none` is the panic of `expect`.
  abbrev pub of_host :
      String
      → Url
      → AddressFamilySelection
      → ℕ
      → (String → ℕ → ProxyLookup)
      → Option String
      → Option ProxyPlan
  of_host mode url family timeout_ms lookup none = none
  of_host mode url family timeout_ms lookup (some host) = some (
      of_lookup mode url family timeout_ms
        (lookup host (unwrap_or 1080 (port_or_known_default url))))

  -- The part of `resolve_proxy` after the URL is read.
  unfoldable pub resolve_url :
      String
      → Url
      → Target
      → AddressFamilySelection
      → ℕ
      → (String → ℕ → ProxyLookup)
      → Option ProxyPlan
  unfolding of_lookup family_conflict
  resolve_url mode url target family timeout_ms lookup =
      elim (family_conflict family target.literal_address url.scheme) [
        | some (kind, error) ↦ some (unavailable_proxy mode (some (redact_url url)) kind error)
        | none ↦ of_host mode url family timeout_ms lookup (host_str url)
      ]

  -- The match of `resolve_proxy` on the URL that was read.
  abbrev pub read_outcome :
      String
      → Target
      → AddressFamilySelection
      → ℕ
      → (String → ℕ → ProxyLookup)
      → Result Url
      → Option (Result ProxyPlan)
  read_outcome mode target family timeout_ms lookup (Result.ok url) =
      map_option (λ (p : ProxyPlan). Result.ok p)
        (resolve_url mode url target family timeout_ms lookup)
  read_outcome mode target family timeout_ms lookup (Result.err error) =
      if str_eq mode "environment"
      then some (Result.ok (unavailable_proxy mode none "invalid_config" error))
      else some (Result.err error)

  unfoldable pub resolve_proxy :
      String
      → String
      → Target
      → AddressFamilySelection
      → ℕ
      → (String → ℕ → ProxyLookup)
      → Option (Result ProxyPlan)
  unfolding parse_proxy_url resolve_url
  resolve_proxy mode value target family timeout_ms lookup =
      read_outcome mode target family timeout_ms lookup (parse_proxy_url value)

  -- The end of `plan`, where a proxy was asked for.
  abbrev pub plan_value :
      ProxyArgs
      → Target
      → ℕ
      → (String → ℕ → ProxyLookup)
      → String
      → Option String
      → Option (Result ProxyPlan)
  plan_value args target timeout_ms lookup mode none = some (
      Result.ok (
        unavailable_proxy mode none "not_configured"
          "proxy transport was requested but no applicable proxy was configured"))
  plan_value args target timeout_ms lookup mode (some value) =
      resolve_proxy mode value target (selected_family args) timeout_ms lookup

  -- The part of `plan` without an explicit proxy.
  abbrev pub plan_mode :
      ProxyArgs
      → Target
      → Environment
      → ℕ
      → (String → ℕ → ProxyLookup)
      → ProxyMode
      → Option (Result ProxyPlan)
  plan_mode args target variables timeout_ms lookup ProxyMode.direct =
      some (Result.ok (ProxyPlan.direct default_proxy_transport))
  plan_mode args target variables timeout_ms lookup ProxyMode.environment =
      if no_proxy_matches readers.read_ip target.host target.port variables
      then some (Result.ok (ProxyPlan.direct bypassed))
      else plan_value args target timeout_ms lookup "environment"
          (select_environment_proxy target variables)

  unfoldable pub plan :
      ProxyArgs → Target → Environment → ℕ → (String → ℕ → ProxyLookup) → Option (Result ProxyPlan)
  unfolding resolve_proxy select_environment_proxy no_proxy_matches
  plan args target variables timeout_ms lookup = elim args.proxy_url [
    | some explicit ↦ plan_value args target timeout_ms lookup "explicit" (some explicit)
    | none ↦ plan_mode args target variables timeout_ms lookup args.proxy_mode
  ]

  -- `validate_args`
  unfoldable pub validate_args : ProxyArgs → Result (Option Url)
  unfolding parse_proxy_url
  validate_args args = elim args.proxy_url [
    | none ↦ Result.ok none
    | some value ↦ on_ok (parse_proxy_url value) (λ url. Result.ok (some url))
  ]
