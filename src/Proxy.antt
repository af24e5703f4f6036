-- ===== src/Proxy.antt =====
-- src/proxy.rs: which proxy a diagnosis goes through, and what of it is shown. What the lookup of the
-- proxy's name comes to is an argument.
pub mod Bypass
pub mod Plan
pub mod Kept
pub mod Base64
use netwhy.Prelude.{
  ℕ, zero, suc, ◌+◌, Bool, true, false, not, ◌&&◌, ◌||◌, ◌==◌, String, ◌<>◌, Option, none, some,
  List, [], ◌∷◌, if◌then◌else◌, str_eq, is_some, is_some_and, map_option, and_then, or_else,
  unwrap_or, decimal, is_blank, contains_str, find_map, any, keep, take, is_empty,
}
use netwhy.Prelude.Results.{Result, on_ok, with_context, context}
use netwhy.Net.{SocketAddr, IpAddr, ip, addr_eq}
use netwhy.Model.{Status, AddressFamilySelection, ProxyTransportEvidence, default_proxy_transport}
use netwhy.Sanitize.{sanitize_report_text}
use netwhy.Url.{Url, host_str, port_or_known_default, Readers}
use netwhy.Target.{Target}
use netwhy.Proxy.Bypass.{Environment, variable, no_proxy_matches}

abbrev pub max_proxy_addresses : ℕ
max_proxy_addresses = 16

pub record SelectedProxy : Type 0 where
  pub url : Url
  pub redacted_url : String
  pub addresses : List SocketAddr
  pub address_family : AddressFamilySelection

abbrev pub address_family_allows : AddressFamilySelection → IpAddr → Bool
address_family_allows AddressFamilySelection.any address = true
address_family_allows AddressFamilySelection.ipv4 (IpAddr.v4 i) = true
address_family_allows AddressFamilySelection.ipv4 (IpAddr.v6 i) = false
address_family_allows AddressFamilySelection.ipv6 (IpAddr.v4 i) = false
address_family_allows AddressFamilySelection.ipv6 (IpAddr.v6 i) = true

-- `SelectedProxy::host`; `none` is the panic of its `expect`.
abbrev pub proxy_host : SelectedProxy → Option String
proxy_host proxy = host_str proxy.url

-- `SelectedProxy::allows_ip`
abbrev pub allows_ip : SelectedProxy → IpAddr → Bool
allows_ip proxy address = address_family_allows proxy.address_family address

-- `SelectedProxy::credentials`; `decode` is `percent_decode`.
abbrev pub credentials : (String → String) → Url → Option (String × String)
credentials decode url =
    if is_blank url.username && not (is_some url.password)
    then none
    else some (decode url.username, unwrap_or "" (map_option decode url.password))

pub data ProxyPlan : Type 0 where
  direct : ProxyTransportEvidence → ProxyPlan
  proxy : SelectedProxy → ProxyPlan
  unavailable : ProxyTransportEvidence → ProxyPlan

unfoldable pub unavailable_proxy : String → Option String → String → String → ProxyPlan
unfolding sanitize_report_text
unavailable_proxy mode selected_proxy error_kind error = ProxyPlan.unavailable (record {
  status = Status.fail;
  mode = mode;
  selected_proxy = selected_proxy;
  bypassed = false;
  attempts = [];
  error_kind = some error_kind;
  error = some (sanitize_report_text error);
})

abbrev pub is_proxy_scheme : String → Bool
is_proxy_scheme scheme =
    str_eq scheme "http"
    || str_eq scheme "https"
    || str_eq scheme "socks5"
    || str_eq scheme "socks5h"

abbrev pub has_location : Url → Bool
has_location url =
    not (is_blank url.path || str_eq url.path "/") || is_some url.query || is_some url.fragment

-- The tests of `parse_proxy_url` on the URL.
unfoldable pub check_proxy_url : Url → Result Url
check_proxy_url url =
    if not (is_proxy_scheme url.scheme)
    then Result.err
        ("unsupported proxy scheme '" <> (url.scheme <> "'; use http, https, socks5, or socks5h"))
    else if not (is_some url.host)
    then Result.err "proxy URL must include a hostname or IP address"
    else if has_location url
    then Result.err "proxy URL must not include a path, query, or fragment"
    else Result.ok url

abbrev names : String → List String
names scheme =
    if str_eq scheme "https"
    then "HTTPS_PROXY" ∷ "https_proxy" ∷ "ALL_PROXY" ∷ "all_proxy" ∷ []
    else "HTTP_PROXY" ∷ "http_proxy" ∷ "ALL_PROXY" ∷ "all_proxy" ∷ []

abbrev filled : Option String → Option String
filled none = none
filled (some value) = if is_blank value then none else some value

unfoldable pub select_environment_proxy : Target → Environment → Option String
unfolding variable
select_environment_proxy target environment =
    find_map (λ name. filled (variable name environment)) (names target.scheme)

-- What the lookup of a proxy's name came to within its time.
pub data ProxyLookup : Type 0 where
  found : List SocketAddr → ProxyLookup
  failed : String → ProxyLookup
  timed_out : ProxyLookup

-- The chain of `filter`, `filter` and `take`; `seen` is the set of the addresses that were kept.
abbrev pub select_addresses :
    AddressFamilySelection → ℕ → List SocketAddr → List SocketAddr → List SocketAddr
select_addresses family zero seen addresses = []
select_addresses family (suc room) seen [] = []
select_addresses family (suc room) seen (a ∷ addresses) =
    if address_family_allows family (ip a) && not (any (addr_eq a) seen)
    then a ∷ select_addresses family room (a ∷ seen) addresses
    else select_addresses family (suc room) seen addresses
