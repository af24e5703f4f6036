-- ===== src/Dns.antt =====
-- src/probe/dns.rs: the addresses of a target. The elapsed time is an argument, and so is what the
-- system resolver answers.
pub mod Selection
pub mod Result
use netwhy.Prelude.{
  ℕ, Bool, true, false, not, ◌&&◌, ◌||◌, ◌==◌, String, Option, none, some, List, [], ◌∷◌, ◌++◌,
  ◌<>◌, if◌then◌else◌, any, is_empty, length, decimal, or_else, map_option,
}
use netwhy.Net.{SocketAddr, IpAddr, addr_eq, is_ipv4, is_ipv6, socket}
use netwhy.Model.{Status, DnsResult}
use netwhy.Sanitize.{sanitize_report_text}

abbrev pub max_addresses : ℕ
max_addresses = 32

-- The variables of the loop of `resolved_result`.
pub record Collected : Type 0 where
  pub seen : List SocketAddr
  pub addresses : List SocketAddr
  pub truncated : Bool

-- `HashSet::contains`
abbrev pub has_seen : SocketAddr → List SocketAddr → Bool
has_seen a seen = any (addr_eq a) seen

-- A family was asked for, and the address is of the other one.
abbrev pub is_excluded : Bool → Bool → SocketAddr → Bool
is_excluded ipv4_only ipv6_only a = (ipv4_only && not (is_ipv4 a)) || (ipv6_only && not (is_ipv6 a))

module _ (ipv4_only ipv6_only : Bool) where
  -- The loop; a round that skips its address goes on as it was, and a full list ends it.
  unfoldable pub collect : List SocketAddr → Collected → Collected
  collect [] s = s
  collect (a ∷ resolved) s =
      let skips = is_excluded ipv4_only ipv6_only a || has_seen a s.seen in
      let pushed : Collected = record s { seen = a ∷ s.seen; addresses = s.addresses ++ a ∷ [] } in
      let later = collect resolved (if skips then s else pushed) in
      if not skips && length s.addresses == max_addresses
      then record s { seen = a ∷ s.seen; truncated = true }
      else later

abbrev pub nothing_collected : Collected
nothing_collected = record { seen = []; addresses = []; truncated = false }

abbrev family_word : Bool → Bool → String
family_word ipv4_only ipv6_only =
    if ipv4_only then "IPv4" else if ipv6_only then "IPv6" else "usable"

abbrev pub failure : ℕ → Bool → String → String → DnsResult
failure elapsed truncated kind error = record {
  status = Status.fail;
  duration_ms = elapsed;
  addresses = [];
  truncated = truncated;
  error_kind = some kind;
  error = some error;
}

abbrev success : ℕ → List SocketAddr → Bool → DnsResult
success elapsed addresses truncated = record {
  status = Status.pass;
  duration_ms = elapsed;
  addresses = addresses;
  truncated = truncated;
  error_kind = none;
  error = none;
}

unfoldable pub resolved_result : ℕ → List SocketAddr → Bool → Bool → DnsResult
unfolding collect
resolved_result elapsed resolved ipv4_only ipv6_only =
    let found = collect ipv4_only ipv6_only resolved nothing_collected in
    if is_empty found.addresses
    then record (failure elapsed found.truncated "no_addresses"
        ("DNS returned no " <> (family_word ipv4_only ipv6_only <> " addresses"))) {
          addresses = found.addresses;
        }
    else success elapsed found.addresses found.truncated

-- What the lookup came to within its time.
pub data Lookup : Type 0 where
  resolved : List SocketAddr → Lookup
  failed : String → Lookup
  timed_out : Lookup

unfoldable pub resolve_lookup : ℕ → Lookup → Bool → Bool → ℕ → DnsResult
unfolding resolved_result
resolve_lookup elapsed (resolved addresses) ipv4_only ipv6_only timeout_ms =
    resolved_result elapsed addresses ipv4_only ipv6_only
resolve_lookup elapsed (failed error) ipv4_only ipv6_only timeout_ms =
    failure elapsed false "resolver_error" (sanitize_report_text error)
resolve_lookup elapsed timed_out ipv4_only ipv6_only timeout_ms =
    failure elapsed false "timeout"
      ("DNS resolution timed out after " <> (decimal timeout_ms <> " ms"))

abbrev family_name : Bool → String
family_name b = if b then "IPv4" else "IPv6"

-- The part of `resolve` for a target that is an address.
unfoldable pub literal_result : ℕ → SocketAddr → Bool → Bool → DnsResult
literal_result elapsed address ipv4_only ipv6_only =
    if (ipv4_only && is_ipv6 address) || (ipv6_only && is_ipv4 address)
    then failure elapsed false "address_family_mismatch" (
        "target is "
        <> (family_name (is_ipv4 address)
            <> (", but the requested address family is " <> family_name ipv4_only)))
    else success elapsed (address ∷ []) false

-- `resolve`, from the literal address of the target, its host read as an address, its port, and what
-- a lookup would come to.
unfoldable pub resolve :
    ℕ → Option SocketAddr → Option IpAddr → ℕ → Lookup → Bool → Bool → ℕ → DnsResult
unfolding resolve_lookup literal_result
resolve elapsed literal host port lookup ipv4_only ipv6_only timeout_ms =
    elim (or_else literal (map_option (λ ip. socket ip port) host)) [
      | none ↦ resolve_lookup elapsed lookup ipv4_only ipv6_only timeout_ms
      | some address ↦ literal_result elapsed address ipv4_only ipv6_only
    ]
