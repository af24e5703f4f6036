-- ===== src/Route.antt =====
-- src/probe/route.rs: the route to one address, from what the system's tool prints, and how its output is
-- read. The process is an argument, as is the JSON that its output is read as.
pub mod Bounded
use netwhy.Prelude.{
  ℕ, ◌+◌, ◌-◌, ◌^◌, Bool, true, false, not, ◌&&◌, ◌||◌, ltb, String, ◌<>◌, Option, none, some, List,
  [], ◌∷◌, ◌++◌, if◌then◌else◌, str_eq, length, take, is_some, is_blank, and_then, or_else,
  map_option, decimal, trim, contains_str, to_ascii_lowercase, split, split_once, ends_with,
  parse_below,
}
use netwhy.Net.{SocketAddr, ip, is_ipv6}
use netwhy.Net.Display.{display}
use netwhy.Model.{Status, RouteResult}
use netwhy.Sanitize.{sanitize_report_text}
use netwhy.Json.{Value, field, as_str, as_u64}

abbrev pub max_route_output_bytes : ℕ
max_route_output_bytes = 65536

abbrev pub route_destination : SocketAddr → String
route_destination address = display (ip address)

unfoldable pub failed : SocketAddr → String → String → RouteResult
unfolding sanitize_report_text
failed address error_kind error = record {
  status = Status.fail;
  address = address;
  interface = none;
  gateway = none;
  source = none;
  mtu = none;
  advmss = none;
  error_kind = some error_kind;
  error = some (sanitize_report_text error);
}

unfoldable pub skipped : SocketAddr → String → String → RouteResult
unfolding sanitize_report_text
skipped address error_kind error = record {
  status = Status.skip;
  address = address;
  interface = none;
  gateway = none;
  source = none;
  mtu = none;
  advmss = none;
  error_kind = some error_kind;
  error = some (sanitize_report_text error);
}

abbrev scope_arguments : String → Option String → List String
scope_arguments flag none = []
scope_arguments flag (some interface) = flag ∷ interface ∷ []

abbrev pub linux_route_arguments : SocketAddr → String → Option String → List String
linux_route_arguments address destination scope_interface =
    "-j"
    ∷ (if is_ipv6 address then "-6" else "-4")
    ∷ "route"
    ∷ "get"
    ∷ destination
    ∷ scope_arguments "oif" scope_interface

abbrev pub macos_route_arguments : SocketAddr → String → Option String → List String
macos_route_arguments address destination scope_interface =
    "-n"
    ∷ "get"
    ∷ (if is_ipv6 address then "-inet6" else "-inet")
    ∷ (scope_arguments "-ifscope" scope_interface ++ destination ∷ [])

unfoldable pub is_no_route_error : String → Bool
unfolding to_ascii_lowercase
is_no_route_error error =
    let lower = to_ascii_lowercase error in
    contains_str "network is unreachable" lower
    || contains_str "no route to host" lower
    || contains_str "no route" lower
    || contains_str "not in table" lower

-- `string_field`
unfoldable pub string_field : Value → String → Option String
unfolding field sanitize_report_text
string_field value name = map_option sanitize_report_text (and_then (field name value) as_str)

abbrev in_u32 : ℕ → Option ℕ
in_u32 n = if ltb n (2 ^ 32) then some n else none

unfoldable pub numeric_field : Value → String → Option ℕ
unfolding field
numeric_field value name = and_then (and_then (field name value) as_u64) in_u32

-- A number of the route, or else of its metrics
unfoldable pub metric : Value → String → Option ℕ
unfolding numeric_field
metric route name =
    or_else (numeric_field route name)
      (and_then (field "metrics" route) (λ metrics. numeric_field metrics name))

-- `Result` with a text for its error
pub data Parsed : Type 0 where
  route : RouteResult → Parsed
  unreadable : String → Parsed

-- `parse_iproute2_route` of the JSON list that the output was read as
unfoldable pub parse_iproute2_route : SocketAddr → List Value → Parsed
unfolding string_field metric
parse_iproute2_route address [] = Parsed.unreadable "the kernel returned no route"
parse_iproute2_route address (value ∷ values) = Parsed.route (record {
  status = Status.pass;
  address = address;
  interface = string_field value "dev";
  gateway = string_field value "gateway";
  source = or_else (string_field value "prefsrc") (string_field value "src");
  mtu = metric value "mtu";
  advmss = metric value "advmss";
  error_kind = none;
  error = none;
})

-- The names that the loop over the lines of macOS has found
pub record Found : Type 0 where
  pub interface : Option String
  pub gateway : Option String
  pub mtu : Option ℕ

-- The round of one line
unfoldable pub read_line : String → Found → Found
unfolding sanitize_report_text trim parse_below
read_line line found = elim (split_once b':' line) [
  | none ↦ found
  | some (name, value) ↦
      if is_blank (trim value)
      then found
      else if str_eq (trim name) "interface" && not (is_some found.interface)
      then record found { interface = some (sanitize_report_text (trim value)) }
      else if str_eq (trim name) "gateway" && not (is_some found.gateway)
      then record found { gateway = some (sanitize_report_text (trim value)) }
      else if str_eq (trim name) "mtu" && not (is_some found.mtu)
      then record found { mtu = parse_below (2 ^ 32) (trim value) }
      else found
]

abbrev read_lines : List String → Found → Found
read_lines [] found = found
read_lines (line ∷ lines) found = read_lines lines (read_line line found)

abbrev of_found : SocketAddr → Found → Parsed
of_found address found =
    if not (is_some found.interface)
    then Parsed.unreadable "macOS route output did not include an interface"
    else Parsed.route (record {
      status = Status.pass;
      address = address;
      interface = found.interface;
      gateway = found.gateway;
      source = none;
      mtu = found.mtu;
      advmss = none;
      error_kind = none;
      error = none;
    })

-- `parse_macos_route` of the text of the output
unfoldable pub parse_macos_route : SocketAddr → String → Parsed
unfolding read_line
parse_macos_route address output =
    of_found address
      (read_lines (split 10 output) (record { interface = none; gateway = none; mtu = none }))

pub record CapturedStream : Type 0 where
  pub bytes : List ℕ
  pub truncated : Bool

-- A round of the loop of `read_bounded`, on what one `read` gave
abbrev pub capture : CapturedStream → List ℕ → CapturedStream
capture c chunk =
    let remaining = max_route_output_bytes - length c.bytes in
    record {
      bytes = c.bytes ++ take remaining chunk;
      truncated = c.truncated || ltb remaining (length chunk);
    }

abbrev pub capture_all : CapturedStream → List (List ℕ) → CapturedStream
capture_all c [] = c
capture_all c (chunk ∷ chunks) = capture_all (capture c chunk) chunks

unfoldable pub read_bounded : List (List ℕ) → CapturedStream
read_bounded chunks = capture_all (record { bytes = []; truncated = false }) chunks

-- What a run of the tool comes to: its exit, its error text as `from_utf8_lossy` reads it, and what its
-- output is parsed as.
pub record CommandOutput : Type 0 where
  pub success : Bool
  pub status : String
  pub error_text : String
  pub error_truncated : Bool
  pub parsed : Parsed
  pub output_truncated : Bool

pub data CommandOutcome : Type 0 where
  finished : CommandOutput → CommandOutcome
  missing timeout : CommandOutcome
  io_error : String → CommandOutcome

abbrev of_error : SocketAddr → String → RouteResult
of_error address error =
    if is_no_route_error error
    then failed address "no_route" error
    else skipped address "tool_failed" error

abbrev of_parsed : SocketAddr → Parsed → RouteResult
of_parsed address (Parsed.route r) = r
of_parsed address (Parsed.unreadable e) =
    if str_eq e "the kernel returned no route"
    then failed address "no_route" e
    else skipped address "parse_error" e

-- The tests of `inspect` on the output of the tool named `command`
unfoldable pub of_output : String → SocketAddr → CommandOutput → RouteResult
unfolding failed skipped is_no_route_error trim
of_output command address output =
    if output.error_truncated
    then skipped address "tool_failed" (command <> " error output exceeded the 64 KiB safety limit")
    else if not output.success
    then of_error address (
        if is_blank (trim output.error_text)
        then command <> (" exited with " <> output.status)
        else trim output.error_text)
    else if output.output_truncated
    then skipped address "parse_error" (command <> " output exceeded the 64 KiB safety limit")
    else of_parsed address output.parsed

abbrev of_outcome : String → String → SocketAddr → ℕ → CommandOutcome → RouteResult
of_outcome command missing_message address timeout_ms CommandOutcome.missing =
    skipped address "tool_missing" missing_message
of_outcome command missing_message address timeout_ms (CommandOutcome.io_error error) =
    skipped address "tool_failed" error
of_outcome command missing_message address timeout_ms CommandOutcome.timeout =
    skipped address "timeout" ("route inspection timed out after " <> (decimal timeout_ms <> " ms"))
of_outcome command missing_message address timeout_ms (CommandOutcome.finished o) =
    of_output command address o

-- `inspect`; an error is that of the name of the interface for the scope of the address.
unfoldable pub inspect :
    String → String → SocketAddr → ℕ → Option String → CommandOutcome → RouteResult
unfolding of_output skipped
inspect command missing_message address timeout_ms none outcome =
    of_outcome command missing_message address timeout_ms outcome
inspect command missing_message address timeout_ms (some error) outcome =
    skipped address "tool_failed" error
