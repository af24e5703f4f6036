-- ===== src/Diagnosis/Transport.antt =====
-- src/diagnosis.rs: the failures of DNS and TCP, and the asymmetry of address families.
use netwhy.Prelude.{
  Bool, true, false, not, ◌&&◌, ◌||◌, String, Option, none, some, List, [], ◌∷◌, if◌then◌else◌, any,
  all, keep, find_map, is_empty, is_some_and, unwrap_or, contains_text, str_eq,
}
use netwhy.Model.{Status, is_pass, AddressFamily, family_eq, DiagnosisCode, TcpResult, RouteResult}
use netwhy.Diagnosis.State.{
  Draft, ◌▸◌, set_overall, set_code, set_summary, set_likely_cause, suggest,
}

unfoldable pub diagnose_dns_failure : Draft → Draft
diagnose_dns_failure d =
    d
    ▸ set_overall Status.fail
    ▸ set_code DiagnosisCode.dns_resolution_failed
    ▸ set_summary "DNS resolution failed."
    ▸ set_likely_cause
        (some (unwrap_or "the system resolver returned no usable address" d.report.dns.error))
    ▸ suggest "Inspect `resolvectl status` and `/etc/resolv.conf`."
    ▸ suggest "Try the hostname with `getent ahosts <host>` to confirm system resolver behavior."

-- There is a result, and every result failed in one of the ways.
unfoldable pub all_tcp_errors : List TcpResult → List String → Bool
all_tcp_errors tcp kinds =
    not (is_empty tcp) && all (λ result. is_some_and (contains_text kinds) result.error_kind) tcp

unfoldable pub has_no_route : List TcpResult → List RouteResult → Bool
unfolding all_tcp_errors
has_no_route tcp routes =
    all_tcp_errors tcp ("network_unreachable" ∷ "host_unreachable" ∷ [])
    || (not (is_empty routes)
        && all (λ route. is_some_and (λ kind. str_eq kind "no_route") route.error_kind) routes)

unfoldable pub diagnose_tcp_failure : Draft → Draft
unfolding all_tcp_errors has_no_route
diagnose_tcp_failure draft =
    let d = draft ▸ set_overall Status.fail in
    let tcp = draft.report.tcp in
    if all_tcp_errors tcp ("connection_refused" ∷ [])
    then d
      ▸ set_code DiagnosisCode.tcp_connection_refused
      ▸ set_summary "The host is reachable, but the TCP port refused the connection."
      ▸ set_likely_cause
          (some "nothing is listening on the target port, or a firewall is actively rejecting it")
      ▸ suggest "Verify the host and port, then check listening sockets with `ss -lntp`."
    else if has_no_route tcp draft.report.routes
    then d
      ▸ set_code DiagnosisCode.no_route
      ▸ set_summary "No usable network route reached the target."
      ▸ set_likely_cause
          (some "a missing route, disconnected interface, or VPN policy is preventing delivery")
      ▸ suggest "Inspect `ip route`, `ip -6 route`, and active VPN interfaces."
    else if all_tcp_errors tcp ("timeout" ∷ [])
    then d
      ▸ set_code DiagnosisCode.tcp_timeout
      ▸ set_summary "Every TCP connection attempt timed out."
      ▸ set_likely_cause (
          some
            "traffic is probably being dropped by a firewall, broken route, or unreachable service")
      ▸ suggest "Check local firewall rules, VPN routing, and the remote service's allowlist."
    else d
      ▸ set_code DiagnosisCode.tcp_connect_failed
      ▸ set_summary "Every TCP connection attempt failed."
      ▸ set_likely_cause (find_map (λ result. result.error) tcp)
      ▸ suggest "Review the per-address errors to identify the failing network layer."

-- `none` when the family was not resolved, otherwise whether any address connected.
unfoldable pub family_state : List TcpResult → AddressFamily → Option Bool
family_state tcp family =
    let family_results = keep (λ result. family_eq result.family family) tcp in
    if is_empty family_results
    then none
    else some (any (λ result. is_pass result.status) family_results)

-- The arms of the match on the states of IPv4 and IPv6.
unfoldable pub asymmetry : Option Bool → Option Bool → Draft → Draft × Bool
asymmetry (some true) (some false) d = (
  d
      ▸ set_code DiagnosisCode.address_family_partial
      ▸ set_summary "IPv4 works, but IPv6 connectivity fails."
      ▸ set_likely_cause
          (some "the IPv6 route, VPN policy, or upstream IPv6 connectivity is broken")
      ▸ suggest "Compare with `netwhy --ipv4 <target>` and inspect `ip -6 route`.",
  true,
)
asymmetry (some false) (some true) d = (
  d
      ▸ set_code DiagnosisCode.address_family_partial
      ▸ set_summary "IPv6 works, but IPv4 connectivity fails."
      ▸ set_likely_cause
          (some "the IPv4 route, NAT, firewall policy, or upstream IPv4 connectivity is broken")
      ▸ suggest "Compare with `netwhy --ipv6 <target>` and inspect `ip route`.",
  true,
)
asymmetry _ _ d = (d, false)

unfoldable pub diagnose_family_asymmetry : Draft → Draft × Bool
unfolding asymmetry family_state
diagnose_family_asymmetry d =
    asymmetry (family_state d.report.tcp AddressFamily.ipv4)
      (family_state d.report.tcp AddressFamily.ipv6) d
