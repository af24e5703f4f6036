-- ===== src/Proxy/Bypass.antt =====
-- src/proxy.rs: the targets that the environment exempts from the proxy.
use netwhy.Prelude.{
  ℕ, ◌-◌, ◌*◌, ◌^◌, ◌%◌, Bool, true, false, not, ◌&&◌, ◌||◌, ◌==◌, leb, String, ◌<>◌, Option, none,
  some, List, [], ◌∷◌, if◌then◌else◌, str_eq, is_some_and, map_option, and_then, map, any, keep,
  find_map, is_blank, trim, trim_brackets, trim_start_by, to_ascii_lowercase, split, split_once,
  rsplit_once, strip_char, count_char, ends_with, parse_below,
}
use Prim.Native.Nat.{bit_and}
use netwhy.Net.{IpAddr}

-- The variables of an execution context.
abbrev pub Environment : Type 0
Environment = List (String × String)

-- `iter().find(..)` of a name, and its value
unfoldable pub variable : String → Environment → Option String
variable name [] = none
variable name ((candidate, value) ∷ rest) =
    if str_eq candidate name then some value else variable name rest

-- `u32::MAX << (32 - prefix)`, and of 128 bits
abbrev pub mask : ℕ → ℕ → ℕ
mask width prefix = if prefix == 0 then 0 else (2 ^ width - 1) * 2 ^ (width - prefix) % 2 ^ width

abbrev contains_bits : ℕ → ℕ → ℕ → ℕ → Bool
contains_bits width network prefix address =
    bit_and network (mask width prefix) == bit_and address (mask width prefix)

unfoldable pub cidr_contains : IpAddr → ℕ → IpAddr → Bool
cidr_contains (IpAddr.v4 network) prefix (IpAddr.v4 address) =
    leb prefix 32 && contains_bits 32 network prefix address
cidr_contains (IpAddr.v6 network) prefix (IpAddr.v6 address) =
    leb prefix 128 && contains_bits 128 network prefix address
cidr_contains _ prefix _ = false

abbrev after_colon : String → Option ℕ
after_colon rest = and_then (strip_char b':' rest) (parse_below 65536)

abbrev bracket_port : String × String → String × Option ℕ
bracket_port (host, rest) = (host, after_colon rest)

abbrev host_port : String → String × String → String × Option ℕ
host_port entry (host, port) = elim (parse_below 65536 port) [
  | none ↦ (entry, none)
  | some p ↦ (host, some p)
]

abbrev last_colon : String → String × Option ℕ
last_colon entry = elim (rsplit_once b':' entry) [
  | none ↦ (entry, none)
  | some parts ↦ host_port entry parts
]

unfoldable pub split_no_proxy_port : String → String × Option ℕ
unfolding parse_below
split_no_proxy_port entry = elim (and_then (strip_char b'[' entry) (split_once b']')) [
  | some bracket ↦ bracket_port bracket
  | none ↦ if count_char b':' entry == 1 then last_colon entry else (entry, none)
]

module _ (read_ip : String → Option IpAddr) where
  abbrev network_of : String × String → Option (IpAddr × ℕ)
  network_of (address, prefix) =
      and_then (read_ip address) (λ a. map_option (λ p. (a, p)) (parse_below 256 prefix))

  unfoldable pub parse_cidr : String → Option (IpAddr × ℕ)
  unfolding parse_below
  parse_cidr value = and_then (split_once b'/' value) network_of

  -- `host == suffix || host.ends_with(&format!(".{suffix}"))`
  abbrev pub matches_domain : String → String → Bool
  matches_domain host entry_host =
      let suffix = trim_start_by (λ c. c == b'.') entry_host in
      str_eq host suffix || ends_with host ("." <> suffix)

  -- The end of `no_proxy_entry_matches`, from both hosts in lower case.
  abbrev pub host_matches : String → String → Bool
  host_matches entry_host host = elim (read_ip host) [
    | none ↦ matches_domain host entry_host
    | some address ↦ elim (parse_cidr entry_host) [
      | none ↦ matches_domain host entry_host
      | some (network, prefix) ↦ cidr_contains network prefix address
    ]
  ]

  abbrev pub bare_host : String → String
  bare_host host = to_ascii_lowercase (trim_brackets host)

  unfoldable pub no_proxy_entry_matches : String → String → ℕ → Bool
  unfolding split_no_proxy_port parse_cidr cidr_contains trim_brackets to_ascii_lowercase
  no_proxy_entry_matches entry host port =
      if str_eq entry "*"
      then true
      else (let (entry_host, entry_port) = split_no_proxy_port entry in
          if is_some_and (λ expected. not (expected == port)) entry_port
          then false
          else host_matches (bare_host entry_host) (bare_host host))

  unfoldable pub no_proxy_value_matches : String → ℕ → String → Bool
  unfolding no_proxy_entry_matches trim
  no_proxy_value_matches host port value =
      any (λ entry. no_proxy_entry_matches entry host port)
        (keep (λ entry. not (is_blank entry)) (map trim (split b',' value)))

  unfoldable pub no_proxy_matches : String → ℕ → Environment → Bool
  unfolding no_proxy_value_matches variable
  no_proxy_matches host port environment =
      is_some_and (no_proxy_value_matches host port)
        (find_map (λ name. variable name environment) ("NO_PROXY" ∷ "no_proxy" ∷ []))
