-- ===== src/Proxy/Base64.antt =====
-- `base64` and `basic_authorization` of src/proxy.rs, and a decoder that reads back what it writes.
use Prim.Native.Char.{Char, code}
use Prim.Native.String.{String, char_at}
use netwhy.Prelude.{
  ℕ, suc, ◌+◌, ◌*◌, ◌/◌, ◌%◌, ◌<◌, ◌≡◌, refl, ap, ◌∙◌, Bool, true, false, ◌==◌, ◌<>◌, Option, none,
  some, List, [], ◌∷◌, if◌then◌else◌, map_option, bytes, AreBytes, AreBytes-bytes, not, ◌&&◌, below,
  holds_below, arith, all,
}
use netwhy.Url.{Url}
use netwhy.Proxy.{credentials}

abbrev table : String
table = "ABCDEFGHIJKLMNOPQRSTUVWXYZabcdefghijklmnopqrstuvwxyz0123456789+/"

-- `TABLE[..] as char`
abbrev letter : ℕ → Char
letter i = char_at table i

-- The round of `base64` for one chunk of three bytes, of two and of one.
abbrev three : ℕ → ℕ → ℕ → String → String
three a b c rest = String.◌∷◌ (letter (a / 4)) (
    String.◌∷◌ (letter (a % 4 * 16 + b / 16))
      (String.◌∷◌ (letter (b % 16 * 4 + c / 64)) (String.◌∷◌ (letter (c % 64)) rest)))

abbrev two : ℕ → ℕ → String
two a b =
    String.◌∷◌ (letter (a / 4))
      (String.◌∷◌ (letter (a % 4 * 16 + b / 16)) (String.◌∷◌ (letter (b % 16 * 4)) "="))

abbrev one : ℕ → String
one a = String.◌∷◌ (letter (a / 4)) (String.◌∷◌ (letter (a % 4 * 16)) "==")

unfoldable pub base64_bytes : List ℕ → String
base64_bytes [] = ""
base64_bytes (a ∷ []) = one a
base64_bytes (a ∷ b ∷ []) = two a b
base64_bytes (a ∷ b ∷ c ∷ chunks) = three a b c (base64_bytes chunks)

unfoldable pub base64 : String → String
unfolding base64_bytes
base64 value = base64_bytes (bytes value)

unfoldable pub basic_authorization : (String → String) → Url → Option String
unfolding base64
basic_authorization decode url =
    map_option (λ (user : String × String). "Basic " <> base64 (user.0 <> (":" <> user.1)))
      (credentials decode url)

-- The place of a character in the table, and 64 for any other.
place_in : ℕ → String → ℕ
place_in c String.[] = 0
place_in c (String.◌∷◌ d s) = let later = suc (place_in c s) in if c == code d then 0 else later

place : Char → ℕ
unfolding place_in
place c = place_in (code c) table

-- The bytes of four characters in front of the rest; `=` stands for a byte that is not there.
unfoldable pub decode_base64 : String → Option (List ℕ)
unfolding place
decode_base64 String.[] = some []
decode_base64 (String.◌∷◌ p (String.◌∷◌ q (String.◌∷◌ r (String.◌∷◌ s rest)))) =
    let first = place p * 4 + place q / 16 in
    let second = place q % 16 * 16 + place r / 4 in
    let third = place r % 4 * 64 + place s in
    let later = map_option (λ (bs : List ℕ). first ∷ second ∷ third ∷ bs) (decode_base64 rest) in
    if code r == b'='
    then some (first ∷ [])
    else if code s == b'='
    then some (first ∷ second ∷ [])
    else later
decode_base64 _ = none

-- A character of the table is read back as its place, and is not the padding.
abbrev reads_back : ℕ → Bool
reads_back i = place (letter i) == i && not (code (letter i) == b'=')

table_reads_back : all reads_back (below 64) ≡ true
unfolding below place
table_reads_back = refl

place-letter : (i : ℕ) → i < 64 → (place (letter i) ≡ i) × ((code (letter i) == b'=') ≡ false)
place-letter i h =
    let e : reads_back i ≡ true = holds_below 64 reads_back table_reads_back i h in
    (ground arith, ground arith)

decode-three :
    (a b c : ℕ) (rest : String)
    → a < 256
    → b < 256
    → c < 256
    → decode_base64 (three a b c rest)
      ≡ map_option (λ (bs : List ℕ). a ∷ b ∷ c ∷ bs) (decode_base64 rest)
unfolding decode_base64
decode-three a b c rest ha hb hc =
    let (p, _) = place-letter (a / 4) (omega arith) in
    let (q, _) = place-letter (a % 4 * 16 + b / 16) (omega arith) in
    let (r, r') = place-letter (b % 16 * 4 + c / 64) (omega arith) in
    let (s, s') = place-letter (c % 64) (omega arith) in
    let ea : a / 4 * 4 + (a % 4 * 16 + b / 16) / 16 ≡ a = omega arith in
    let eb : (a % 4 * 16 + b / 16) % 16 * 16 + (b % 16 * 4 + c / 64) / 4 ≡ b = omega arith in
    let ec : (b % 16 * 4 + c / 64) % 4 * 64 + c % 64 ≡ c = omega arith in
    rw (r', s', p, q, r, s, ea, eb, ec) refl

decode-two : (a b : ℕ) → a < 256 → b < 256 → decode_base64 (two a b) ≡ some (a ∷ b ∷ [])
unfolding decode_base64
decode-two a b ha hb =
    let (p, _) = place-letter (a / 4) (omega arith) in
    let (q, _) = place-letter (a % 4 * 16 + b / 16) (omega arith) in
    let (r, r') = place-letter (b % 16 * 4) (omega arith) in
    let ea : a / 4 * 4 + (a % 4 * 16 + b / 16) / 16 ≡ a = omega arith in
    let eb : (a % 4 * 16 + b / 16) % 16 * 16 + b % 16 * 4 / 4 ≡ b = omega arith in
    rw (r', p, q, r, ea, eb) refl

decode-one : (a : ℕ) → a < 256 → decode_base64 (one a) ≡ some (a ∷ [])
unfolding decode_base64
decode-one a ha =
    let (p, _) = place-letter (a / 4) (omega arith) in
    let (q, _) = place-letter (a % 4 * 16) (omega arith) in
    let ea : a / 4 * 4 + a % 4 * 16 / 16 ≡ a = omega arith in rw (p, q, ea) refl

decode-base64_bytes : (bs : List ℕ) → AreBytes bs → decode_base64 (base64_bytes bs) ≡ some bs
unfolding base64_bytes
decode-base64_bytes [] h = unfold decode_base64 in refl
decode-base64_bytes (a ∷ []) h = decode-one a h.0
decode-base64_bytes (a ∷ b ∷ []) h = decode-two a b h.0 h.1.0
decode-base64_bytes (a ∷ b ∷ c ∷ bs) h =
    decode-three a b c (base64_bytes bs) h.0 h.1.0 h.1.1.0
    ∙ ap (map_option (λ (bs : List ℕ). a ∷ b ∷ c ∷ bs)) (decode-base64_bytes bs h.1.1.1)

-- The text that is encoded can be read back from its encoding, byte by byte.
pub decode_base64-base64 : (value : String) → decode_base64 (base64 value) ≡ some (bytes value)
unfolding base64
decode_base64-base64 value = decode-base64_bytes (bytes value) (AreBytes-bytes value)
