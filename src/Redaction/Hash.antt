-- ===== src/Redaction/Hash.antt =====
-- The end of src/redaction.rs: the stable hash, the pseudonyms made of it, and the addresses reserved
-- for documentation that stand for the real ones.
use Prim.Native.Nat.{bit_xor}
use netwhy.Prelude.{
  ℕ, zero, suc, ◌+◌, ◌*◌, ◌/◌, ◌%◌, ◌^◌, String, ◌<>◌, bytes, Option, none, some, List, [], ◌∷◌,
  digit,
}
use netwhy.Net.{SocketAddr, IpAddr, ip, port, socket}
use netwhy.Net.Display.{display}

unfoldable hash_bytes : ℕ → List ℕ → ℕ
hash_bytes hash [] = hash
hash_bytes hash (byte ∷ bytes) = hash_bytes (bit_xor hash byte * 0x100000001b3 % 2 ^ 64) bytes

unfoldable pub stable_hash : String → ℕ
unfolding hash_bytes
stable_hash value = hash_bytes 0xcbf29ce484222325 (bytes value)

-- `{:x}` with zeros in front, up to a width
hex_digits : ℕ → ℕ → String → String
hex_digits zero n acc = acc
hex_digits (suc width) n acc = hex_digits width (n / 16) (digit (n % 16) <> acc)

unfoldable pub hex_16 : ℕ → String
unfolding hex_digits
hex_16 n = hex_digits 16 n ""

unfoldable pub pseudonym : String → String → String
unfolding stable_hash hex_16
pseudonym kind value = kind <> ("-" <> hex_16 (stable_hash value))

-- 192.0.2.1 to 192.0.2.254, and 2001:db8:: with the last two segments.
unfoldable pub redact_ip : IpAddr → IpAddr
unfolding stable_hash
redact_ip (IpAddr.v4 i) =
    let hash = stable_hash (display (IpAddr.v4 i)) in
    IpAddr.v4 (192 * 2 ^ 24 + 0 * 2 ^ 16 + 2 * 2 ^ 8 + (hash % 254 + 1))
redact_ip (IpAddr.v6 i) =
    let hash = stable_hash (display (IpAddr.v6 i)) in
    IpAddr.v6
      (0x2001 * 2 ^ 112 + 0x0db8 * 2 ^ 96 + (hash / 2 ^ 16 % 2 ^ 16) * 2 ^ 16 + hash % 2 ^ 16)

unfoldable pub redact_socket : SocketAddr → SocketAddr
unfolding redact_ip
redact_socket address = socket (redact_ip (ip address)) (port address)

-- `value.parse::<IpAddr>()` is an argument.
unfoldable pub redact_address_text : (String → Option IpAddr) → String → String
unfolding pseudonym redact_ip
redact_address_text parse value = elim (parse value) [
  | none ↦ pseudonym "value" value
  | some address ↦ display (redact_ip address)
]
