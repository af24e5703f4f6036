-- ===== src/ApplicationProbe/Socks.antt =====
-- The SOCKS5 client of src/probe/application.rs.
pub mod Request
pub mod Reply
use netwhy.Prelude.{
  ℕ, ◌+◌, ◌/◌, ◌%◌, ◌^◌, Bool, true, false, not, ◌&&◌, ◌||◌, ◌==◌, leb, ltb, String, ◌<>◌, Option,
  none, some, List, [], ◌∷◌, ◌++◌, length, if◌then◌else◌, str_eq, is_some, bytes, be_bytes,
  be_value, decimal, find,
}
use netwhy.Net.{SocketAddr, IpAddr, ip}
use netwhy.Tcp.{ErrorKind}
use netwhy.Url.{Url}
use netwhy.Target.{Target}
use netwhy.Proxy.{SelectedProxy, allows_ip, credentials}
use netwhy.ApplicationProbe.Stream.{
  IoResult, ok, failed, Io, ◌>>=◌, ◌>>◌, return, fail, error, of_result, write_all, read_exact,
}

abbrev is_pair : List ℕ → ℕ → ℕ → Bool
is_pair (a ∷ b ∷ []) x y = a == x && b == y
is_pair _ x y = false

-- The number of bytes as one byte, if it is one
abbrev one_byte : String → List ℕ → Io ℕ
one_byte error bs =
    if leb (length bs) 255 then return (length bs) else fail ErrorKind.any_other error

-- The username and the password, in a message of their own
unfoldable pub send_credentials : String × String → Io (Unit {0})
unfolding write_all read_exact
send_credentials (username, password) = do
  username_len ← one_byte "SOCKS5 username exceeds the 255-byte protocol limit" (bytes username)
  password_len ← one_byte "SOCKS5 password exceeds the 255-byte protocol limit" (bytes password)
  write_all (0x01 ∷ username_len ∷ (bytes username ++ password_len ∷ bytes password))
  response ← read_exact 2
  if is_pair response 0x01 0x00
      then return tt
      else fail ErrorKind.permission_denied "SOCKS5 username/password authentication failed"

abbrev authenticate_rest : Option (String × String) → Io (Unit {0})
authenticate_rest none = return tt
authenticate_rest (some user) = send_credentials user

abbrev method_of : Option (String × String) → ℕ
method_of login = if is_some login then 0x02 else 0x00

-- What follows the answer to the greeting
abbrev greeted : Option (String × String) → List ℕ → Io (Unit {0})
greeted login greeting =
    if is_pair greeting 0x05 (method_of login)
    then authenticate_rest login
    else fail ErrorKind.permission_denied "SOCKS5 proxy rejected the offered authentication method"

unfoldable pub socks5_authenticate : Option (String × String) → Io (Unit {0})
unfolding send_credentials write_all read_exact
socks5_authenticate login = do
  write_all (0x05 ∷ 0x01 ∷ method_of login ∷ [])
  greeting ← read_exact 2
  greeted login greeting

abbrev pub literal_address : SelectedProxy → SocketAddr → IoResult IpAddr
literal_address proxy literal =
    if allows_ip proxy (ip literal)
    then IoResult.ok (ip literal)
    else error ErrorKind.any_other
        "the SOCKS5 destination is excluded by the selected address family"

abbrev pub of_first : Option SocketAddr → IoResult IpAddr
of_first none = error ErrorKind.any_other "local DNS returned no address for the SOCKS5 destination"
of_first (some address) = IoResult.ok (ip address)

abbrev pub first_allowed : SelectedProxy → List SocketAddr → IoResult IpAddr
first_allowed proxy addresses = of_first (find (λ address. allows_ip proxy (ip address)) addresses)

-- The address that the proxy is to reach, where it gets no name: the literal one, or the first that the
-- lookup found. What the lookup came to is an argument.
abbrev pub destination_address :
    SelectedProxy → Option SocketAddr → IoResult (List SocketAddr) → IoResult IpAddr
destination_address proxy (some literal) lookup = literal_address proxy literal
destination_address proxy none (ok addresses) = first_allowed proxy addresses
destination_address proxy none (failed e) = IoResult.failed e

abbrev pub address_bytes : IpAddr → List ℕ
address_bytes (IpAddr.v4 i) = 0x01 ∷ be_bytes 4 i
address_bytes (IpAddr.v6 i) = 0x04 ∷ be_bytes 16 i

abbrev pub connect_request : List ℕ → ℕ → List ℕ
connect_request destination port = 0x05 ∷ 0x01 ∷ 0x00 ∷ (destination ++ be_bytes 2 port)

abbrev pub address_request : ℕ → IoResult IpAddr → IoResult (List ℕ)
address_request port (ok address) = IoResult.ok (connect_request (address_bytes address) port)
address_request port (failed e) = IoResult.failed e

abbrev pub name_request : List ℕ → ℕ → IoResult (List ℕ)
name_request host port =
    if leb (length host) 255
    then IoResult.ok (connect_request (0x03 ∷ length host ∷ host) port)
    else error ErrorKind.any_other "SOCKS5 destination hostname exceeds 255 bytes"

unfoldable pub socks5_request :
    SelectedProxy → Target → IoResult (List SocketAddr) → IoResult (List ℕ)
socks5_request proxy target lookup =
    if str_eq proxy.url.scheme "socks5"
    then address_request target.port (destination_address proxy target.literal_address lookup)
    else name_request (bytes target.host) target.port

-- The number of bytes of the address of a type; a name comes with its length.
abbrev address_length : ℕ → Io ℕ
address_length address_type =
    if address_type == 0x01
    then return 4
    else if address_type == 0x04
    then return 16
    else if address_type == 0x03
    then read_exact 1 >>= (λ length_byte. return (be_value 0 length_byte))
    else fail ErrorKind.any_other "SOCKS5 proxy returned an invalid address type"

-- `read_exact` into the buffer that is not used
abbrev pub skip_bytes : ℕ → Io (Unit {0})
skip_bytes n = read_exact n >>= (λ _. return tt)

abbrev response_body : List ℕ → Io (Unit {0})
response_body (version ∷ status ∷ reserved ∷ address_type ∷ []) =
    if not (version == 0x05) || not (status == 0x00)
    then fail ErrorKind.connection_refused ("SOCKS5 CONNECT failed with status " <> decimal status)
    else do n ← address_length address_type; skip_bytes (n + 2)
response_body _ = return tt

unfoldable pub read_socks5_response : Io (Unit {0})
unfolding read_exact
read_socks5_response = read_exact 4 >>= response_body

-- What `timeout` makes of a step; the code drops a connection whose time is over.
abbrev pub within {ℓ} : {A : Type ℓ} → Bool → String → Io A → Io A
within expired text m s = if expired then (error ErrorKind.timed_out text, (m s).1) else m s

unfoldable pub socks5_connect :
    (String → String) → SelectedProxy → Target → IoResult (List SocketAddr) → Bool → Io (Unit {0})
unfolding socks5_authenticate socks5_request read_socks5_response write_all
socks5_connect decode proxy target lookup expired = within expired "SOCKS5 negotiation timed out" do
  socks5_authenticate (credentials decode proxy.url)
  request ← of_result (socks5_request proxy target lookup)
  write_all request
  read_socks5_response
