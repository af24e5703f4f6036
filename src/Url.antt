-- ===== src/Url.antt =====
-- What the program uses of the `url` crate and of the standard library's readers: a parsed URL as its
-- components, and the readers and printers, which are arguments of the model.
use netwhy.Prelude.{
  ℕ, ◌<◌, ◌≡◌, String, ◌<>◌, Option, none, some, or_else, str_eq, if◌then◌else◌, map_option,
}
use netwhy.Prelude.Results.{Result}
use netwhy.Net.{SocketAddr, IpAddr, port}
use netwhy.Net.Display.{display}

-- `url::Host`
pub data Host : Type 0 where
  domain : String → Host
  ipv4 ipv6 : ℕ → Host

-- `url::Url`; a port that is the default of the scheme is not kept.
pub record Url : Type 0 where
  pub scheme : String
  pub username : String
  pub password : Option String
  pub host : Option Host
  pub port : Option ℕ
  pub path : String
  pub query : Option String
  pub fragment : Option String

-- `Host::to_string`; an IPv6 address stands in brackets.
unfoldable pub host_text : Host → String
unfolding display
host_text (Host.domain name) = name
host_text (Host.ipv4 ip) = display (IpAddr.v4 ip)
host_text (Host.ipv6 ip) = "[" <> (display (IpAddr.v6 ip) <> "]")

-- `Url::host_str`
abbrev pub host_str : Url → Option String
host_str url = map_option host_text url.host

abbrev pub default_port : String → Option ℕ
default_port scheme =
    if str_eq scheme "http" then some 80 else if str_eq scheme "https" then some 443 else none

-- `Url::port_or_known_default`, for the schemes that the program lets through
abbrev pub port_or_known_default : Url → Option ℕ
port_or_known_default url = or_else url.port (default_port url.scheme)

-- `Url::parse`, the serialisation of a URL, and `parse` of a socket address and of an IP address.
pub record Readers : Type 0 where
  pub read_url : String → Result Url
  pub print_url : Url → String
  pub read_socket : String → Option SocketAddr
  pub read_ip : String → Option IpAddr

-- What the program relies on: a port is a 16-bit number.
pub record AreReaders (readers : Readers) : Type 0 where
  pub url_port :
      (text : String) (url : Url) (p : ℕ)
      → readers.read_url text ≡ Result.ok url
      → url.port ≡ some p
      → p < 65536
  pub socket_port :
      (text : String) (address : SocketAddr)
      → readers.read_socket text ≡ some address
      → port address < 65536
