-- ===== src/Target.antt =====
-- src/target.rs: the endpoint that a user names, and how it is written in requests and reports.
pub mod Parsed
pub mod Report
use netwhy.Prelude.{
  ℕ, zero, suc, ◌+◌, Bool, true, false, not, ◌&&◌, ◌||◌, ◌==◌, ltb, String, ◌<>◌, Option, none,
  some, List, [], ◌∷◌, if◌then◌else◌, str_eq, is_some, map_option, or_else, decimal, trim,
  trim_brackets, is_blank, contains_str, contains_char,
}
use Prim.Native.Char.{code}
use netwhy.Prelude.Results.{Result, on_ok, with_context, context}
use netwhy.Net.{SocketAddr, IpAddr, ip, port, socket}
use netwhy.Net.Display.{display}
use netwhy.Sanitize.{sanitize_report_text}
use netwhy.Url.{Host, Url, host_text, port_or_known_default, Readers}

pub record Target : Type 0 where
  pub original : String
  pub scheme : String
  pub host : String
  pub port : ℕ
  pub url : Option Url
  pub literal_address : Option SocketAddr

abbrev pub is_target_scheme : String → Bool
is_target_scheme scheme = str_eq scheme "http" || str_eq scheme "https" || str_eq scheme "tcp"

abbrev pub is_http : String → Bool
is_http scheme = str_eq scheme "http" || str_eq scheme "https"

abbrev pub literal_ip : Host → Option IpAddr
literal_ip (Host.domain name) = none
literal_ip (Host.ipv4 i) = some (IpAddr.v4 i)
literal_ip (Host.ipv6 i) = some (IpAddr.v6 i)

-- The host of a target: that of a URL, without brackets.
abbrev pub target_host : Host → String
target_host (Host.domain name) = name
target_host (Host.ipv4 i) = display (IpAddr.v4 i)
target_host (Host.ipv6 i) = display (IpAddr.v6 i)

abbrev pub has_userinfo : Url → Bool
has_userinfo url = not (is_blank url.username) || is_some url.password

-- The end of `from_url`, with the host and the port.
abbrev pub build_target : String → Url → Host → ℕ → Result Target
build_target original url host port =
    if port == 0
    then Result.err "target port must be between 1 and 65535"
    else Result.ok (record {
      original = original;
      scheme = url.scheme;
      host = target_host host;
      port = port;
      url = (if is_http url.scheme then some url else none);
      literal_address = map_option (λ i. socket i port) (literal_ip host);
    })

-- The rest of `from_url`, where the host and the port are looked for.
abbrev pub assemble : String → Url → Option Host → Option ℕ → Result Target
assemble original url none port = Result.err "target must include a hostname or IP address"
assemble original url (some host) none = Result.err "TCP targets must include a port"
assemble original url (some host) (some port) = build_target original url host port

unfoldable pub from_url : String → Url → Result Target
unfolding display
from_url original url =
    if not (is_target_scheme url.scheme)
    then Result.err ("unsupported scheme '" <> (url.scheme <> "'; use http, https, or tcp"))
    else if has_userinfo url
    then Result.err
        "target URL credentials are not supported; remove userinfo and use an authenticated application client"
    else assemble original url url.host (port_or_known_default url)

unfoldable pub socket_host : SocketAddr → String
unfolding display
socket_host (SocketAddr.v4 i p) = display (IpAddr.v4 i)
socket_host (SocketAddr.v6 i p flowinfo scope_id) =
    if scope_id == 0
    then display (IpAddr.v6 i)
    else display (IpAddr.v6 i) <> ("%" <> decimal scope_id)

abbrev pub of_socket : String → SocketAddr → Result Target
of_socket input address =
    if port address == 0
    then Result.err "target port must be between 1 and 65535"
    else Result.ok (record {
      original = input;
      scheme = "tcp";
      host = socket_host address;
      port = port address;
      url = none;
      literal_address = some address;
    })

abbrev pub bracketed : IpAddr → String
bracketed (IpAddr.v4 i) = display (IpAddr.v4 i)
bracketed (IpAddr.v6 i) = "[" <> (display (IpAddr.v6 i) <> "]")

abbrev pub has_port : Result Url → Option Url
has_port (Result.ok url) = if is_some url.port then some url else none
has_port (Result.err error) = none

module _ (readers : Readers) where
  -- The end of `parse`, for a name: an endpoint where the name has a port.
  abbrev pub name_or_endpoint : String → Option Url → Result Target
  name_or_endpoint input (some url) = from_url input url
  name_or_endpoint input none =
      on_ok
        (context ("invalid hostname or endpoint: " <> sanitize_report_text input)
          (readers.read_url ("https://" <> (input <> "/"))))
        (from_url input)

  unfoldable pub of_name : String → Result Target
  unfolding from_url sanitize_report_text
  of_name input = name_or_endpoint input (has_port (readers.read_url ("tcp://" <> input)))

  unfoldable pub of_ip : String → IpAddr → Result Target
  unfolding from_url display
  of_ip input address =
      on_ok (readers.read_url ("https://" <> (bracketed address <> "/"))) (from_url input)

  -- The part of `parse` for an input without a scheme.
  unfoldable pub of_endpoint : String → Result Target
  unfolding of_name of_ip socket_host
  of_endpoint input = elim (readers.read_socket input) [
    | some address ↦ of_socket input address
    | none ↦ elim (readers.read_ip input) [
      | some address ↦ of_ip input address
      | none ↦ of_name input
    ]
  ]

  unfoldable pub parse_trimmed : String → Result Target
  unfolding of_endpoint from_url
  parse_trimmed input =
      if is_blank input
      then Result.err "target cannot be empty"
      else if contains_str "://" input
      then on_ok (context "invalid target URL" (readers.read_url input)) (from_url input)
      else of_endpoint input

  -- `Target::parse`
  unfoldable pub parse_target : String → Result Target
  unfolding parse_trimmed trim
  parse_target input = parse_trimmed (trim input)

  unfoldable pub proxy_request_uri : Target → String
  proxy_request_uri t = elim t.url [
    | none ↦ "/"
    | some url ↦ readers.print_url (record url { fragment = none })
  ]

  abbrev redacted : Option String → Option String
  redacted = map_option (λ _. "REDACTED")

  unfoldable pub url_report_value : Target → String
  url_report_value t = elim t.url [
    | none ↦ t.original
    | some url ↦
        readers.print_url
          (record url { query = redacted url.query; fragment = redacted url.fragment })
  ]

abbrev with_query : Option String → String
with_query none = ""
with_query (some query) = "?" <> query

abbrev path_and_query : Url → String
path_and_query url = (if is_blank url.path then "/" else url.path) <> with_query url.query

unfoldable pub request_path : Target → String
request_path t = elim t.url [ none ↦ "/" | some url ↦ path_and_query url ]

abbrev pub authority_host : Target → String
authority_host t =
    if contains_char b':' t.host then "[" <> (trim_brackets t.host <> "]") else t.host

abbrev pub is_default_port : Target → Bool
is_default_port t =
    (str_eq t.scheme "http" && t.port == 80) || (str_eq t.scheme "https" && t.port == 443)

unfoldable pub host_header : Target → String
unfolding trim_brackets
host_header t =
    if is_default_port t then authority_host t else authority_host t <> (":" <> decimal t.port)

unfoldable pub connection_authority : Target → String
unfolding trim_brackets
connection_authority t = authority_host t <> (":" <> decimal t.port)

-- `find` of a character, in characters
abbrev pub find_char : ℕ → String → Option ℕ
find_char d String.[] = none
find_char d (String.◌∷◌ c s) =
    let later = map_option suc (find_char d s) in if code c == d then some 0 else later

-- The text before a position.
abbrev pub before : ℕ → String → String
before zero s = String.[]
before (suc n) String.[] = String.[]
before (suc n) (String.◌∷◌ c s) = String.◌∷◌ c (before n s)

abbrev least_of : Option ℕ → Option ℕ → Option ℕ
least_of none b = b
least_of (some m) none = some m
least_of (some m) (some n) = some (if ltb n m then n else m)

abbrev query_first : Option ℕ → Option ℕ → Bool
query_first none fragment = false
query_first (some q) none = true
query_first (some q) (some f) = ltb q f

-- The end of `redact_query_and_fragment`, from the places of the query and of the fragment.
abbrev pub shown : String → Option ℕ → Option ℕ → String
shown value query fragment = elim (least_of query fragment) [
  | none ↦ value
  | some first_sensitive ↦
      before first_sensitive value
      <> ((if query_first query fragment then "?REDACTED" else "")
          <> (if is_some fragment then "#REDACTED" else ""))
]

unfoldable pub redact_query_and_fragment : String → String
redact_query_and_fragment value = shown value (find_char b'?' value) (find_char b'#' value)

unfoldable pub original_report_value : Target → String
unfolding redact_query_and_fragment sanitize_report_text
original_report_value t = sanitize_report_text (redact_query_and_fragment t.original)
