-- ===== src/Pipeline/Variables.antt =====
-- The proxy variables of src/lib.rs: which ones are kept of an environment, and what is shown of them.
use Prim.Native.Char.{code}
use netwhy.Prelude.{
  ℕ, Bool, ◌||◌, ◌==◌, String, ◌<>◌, Option, none, some, List, [], ◌∷◌, if◌then◌else◌, str_eq,
  starts_with, is_blank, map, map_option, filter_map, unwrap_or, rsplit_once, to_ascii_lowercase,
}
use netwhy.Model.{ProxyVariable}
use netwhy.Sanitize.{sanitize_report_text}
use netwhy.Proxy.Bypass.{Environment}

abbrev names : List String
names =
    "HTTPS_PROXY" ∷ "https_proxy" ∷ "HTTP_PROXY" ∷ "http_proxy" ∷ "ALL_PROXY" ∷ "all_proxy"
    ∷ "NO_PROXY" ∷ "no_proxy" ∷ []

abbrev kept_variable : String → Option String → Option (String × String)
kept_variable name none = none
kept_variable name (some value) = if is_blank value then none else some (name, value)

-- `proxy_environment_from_lookup`
unfoldable pub proxy_environment_from_lookup : (String → Option String) → Environment
proxy_environment_from_lookup lookup = filter_map (λ name. kept_variable name (lookup name)) names

-- `find("://")`: what stands before the authority, and the rest
abbrev pub scheme_split : String → Option (String × String)
scheme_split String.[] = none
scheme_split (String.◌∷◌ c s) =
    let later : Option (String × String) =
      map_option (λ (p : String × String). (String.◌∷◌ c p.0, p.1)) (scheme_split s) in
    if starts_with (String.◌∷◌ c s) "://" then some ("://", skip_two s) else later
  where
    skip_two : String → String
    skip_two (String.◌∷◌ a (String.◌∷◌ b t)) = t
    skip_two t = t

abbrev pub authority_split : String → String × String
authority_split value = unwrap_or ("", value) (scheme_split value)

-- `find(['/', '?', '#'])`
abbrev pub ends_authority : ℕ → Bool
ends_authority c = c == b'/' || c == b'?' || c == b'#'

-- The authority, and what follows it
abbrev pub authority_of : String → String × String
authority_of String.[] = ("", "")
authority_of (String.◌∷◌ c s) =
    let (authority, rest) = authority_of s in
    if ends_authority (code c) then ("", String.◌∷◌ c s) else (String.◌∷◌ c authority, rest)

-- The value with what `rfind('@')` leaves of the authority
abbrev pub show_host : String → String → String → Option (String × String) → String
show_host prefix authority tail none = prefix <> (authority <> tail)
show_host prefix authority tail (some (userinfo, host)) =
    prefix <> ("<redacted>@" <> (host <> tail))

abbrev pub hide_userinfo : String → String × String → String
hide_userinfo prefix (authority, tail) =
    show_host prefix authority tail (rsplit_once b'@' authority)

abbrev pub hide_in : String × String → String
hide_in (prefix, rest) = hide_userinfo prefix (authority_of rest)

unfoldable pub redact_proxy_value : String → String → String
unfolding sanitize_report_text to_ascii_lowercase
redact_proxy_value name value =
    if str_eq (to_ascii_lowercase name) "no_proxy"
    then sanitize_report_text value
    else sanitize_report_text (hide_in (authority_split value))

unfoldable pub report_proxy_variables : Environment → List ProxyVariable
unfolding redact_proxy_value
report_proxy_variables environment =
    map (λ (v : String × String). record { name = v.0; value = redact_proxy_value v.0 v.1 })
      environment
