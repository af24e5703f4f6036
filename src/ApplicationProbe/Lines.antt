-- ===== src/ApplicationProbe/Lines.antt =====
-- The lines of an HTTP response in src/probe/application.rs: `read_crlf_line`, `parse_http_status_line`
-- and `drain_headers`.
pub mod Drained
pub mod Wellformed
pub mod Parsed
use Prim.Native.Char.{Char, char, code, IsScalar}
use netwhy.Prelude.{
  ℕ, zero, suc, ◌+◌, ◌-◌, ◌*◌, ◌≡◌, refl, Bool, true, false, not, ◌&&◌, ◌||◌, ◌==◌, leb, ltb,
  String, ◌<>◌, Option, none, some, List, [], ◌∷◌, length, drop, all, any, if◌then◌else◌, str_eq,
  bytes, decimal, is_empty, map_option, is_digit, split_once, parse_below, arith,
}
use netwhy.Sanitize.{is_control}
use netwhy.Tcp.{ErrorKind}
use netwhy.ApplicationProbe.Stream.{
  IoError, Stream, IoResult, ok, failed, Io, ◌>>=◌, return, fail, error,
}

abbrev pub max_status_line_bytes : ℕ
max_status_line_bytes = 8192

abbrev pub max_header_line_bytes : ℕ
max_header_line_bytes = 8192

abbrev pub max_informational_header_bytes : ℕ
max_informational_header_bytes = 65536

-- What `read_until` of a line feed takes of at most so many bytes.
abbrev pub take_line : ℕ → List ℕ → List ℕ
take_line zero bs = []
take_line (suc n) [] = []
take_line (suc n) (b ∷ bs) = let rest = take_line n bs in if b == 10 then b ∷ [] else b ∷ rest

abbrev pub ends_with_crlf : List ℕ → Bool
ends_with_crlf [] = false
ends_with_crlf (a ∷ []) = false
ends_with_crlf (a ∷ b ∷ []) = a == 13 && b == 10
ends_with_crlf (a ∷ b ∷ c ∷ bs) = ends_with_crlf (b ∷ c ∷ bs)

-- The tests of `read_crlf_line` on what was read.
abbrev pub check_line : ℕ → List ℕ → IoResult (List ℕ)
check_line max_bytes line =
    if is_empty line
    then error ErrorKind.any_other "server closed the connection without an HTTP response"
    else if ltb max_bytes (length line)
    then error ErrorKind.any_other
        ("HTTP line exceeds the " <> (decimal max_bytes <> "-byte safety limit"))
    else if not (ends_with_crlf line)
    then error ErrorKind.any_other "HTTP line is not terminated with CRLF"
    else IoResult.ok line

-- Whether all bytes before the line feed and the limit are read
abbrev pub is_at_end : ℕ → List ℕ → Bool
is_at_end limit line = ltb (length line) limit && not (any (λ b. b == 10) line)

-- A connection that broke fails the read.
abbrev pub line_outcome : ℕ → Bool → Option IoError → List ℕ → IoResult (List ℕ)
line_outcome max_bytes true (some e) line = IoResult.failed e
line_outcome max_bytes _ _ line = check_line max_bytes line

unfoldable pub read_crlf_line : ℕ → Io (List ℕ)
read_crlf_line max_bytes s =
    let line = take_line (suc max_bytes) s.incoming in
    (
      line_outcome max_bytes (is_at_end (suc max_bytes) line) s.reset line,
      record s { incoming = drop (length line) s.incoming },
    )

-- `std::str::from_utf8`. The bytes that a character still lacks, the least number that so many bytes
-- stand for, and the number so far.
record Pending : Type 0 where
  lacks : ℕ
  least : ℕ
  number : ℕ

abbrev is_scalar : ℕ → Bool
is_scalar n = ltb n 55296 || (ltb 57343 n && ltb n 1114112)

pub is_scalar-IsScalar : (n : ℕ) → is_scalar n ≡ true → IsScalar n
is_scalar-IsScalar n h = ground arith

-- A number as a character
abbrev scalar_if : (n : ℕ) (b : Bool) → is_scalar n ≡ b → Option Char
scalar_if n true e = some (char n (is_scalar-IsScalar n e))
scalar_if n false e = none

abbrev scalar : ℕ → Option Char
scalar n = scalar_if n (is_scalar n) refl

abbrev complete : ℕ → Option (Option Char × Pending)
complete n =
    map_option (λ (c : Char). (some c, record { lacks = 0; least = 0; number = 0 })) (scalar n)

abbrev awaiting : ℕ → ℕ → ℕ → Option (Option Char × Pending)
awaiting lacks least number = some (none, record { lacks = lacks; least = least; number = number })

abbrev next_byte : Pending → ℕ → Option (Option Char × Pending)
next_byte p b =
    if p.lacks == 0
    then if ltb b 128
      then complete b
      else if leb 192 b && ltb b 224
      then awaiting 1 128 (b - 192)
      else if leb 224 b && ltb b 240
      then awaiting 2 2048 (b - 224)
      else if leb 240 b && ltb b 248
      then awaiting 3 65536 (b - 240)
      else none
    else if not (leb 128 b && ltb b 192)
    then none
    else if not (p.lacks == 1)
    then awaiting (p.lacks - 1) p.least (p.number * 64 + (b - 128))
    else if leb p.least (p.number * 64 + (b - 128))
    then complete (p.number * 64 + (b - 128))
    else none

abbrev push_char : Option Char → Option String → Option String
push_char c none = none
push_char none (some s) = some s
push_char (some c) (some s) = some (String.◌∷◌ c s)

abbrev decode_from : Pending → List ℕ → Option String
decode_from p [] = if p.lacks == 0 then some String.[] else none
decode_from p (b ∷ bs) = elim (next_byte p b) [
  | none ↦ none
  | some (c, q) ↦ push_char c (decode_from q bs)
]

unfoldable pub from_utf8 : List ℕ → Option String
from_utf8 bs = decode_from (record { lacks = 0; least = 0; number = 0 }) bs

-- `chars().any(char::is_control)`
abbrev pub has_control : String → Bool
has_control String.[] = false
has_control (String.◌∷◌ c s) = is_control (code c) || has_control s

-- The first two parts of `splitn(3, ' ')`
abbrev pub version_and_code : String → String × String
version_and_code line = elim (split_once 32 line) [
  | none ↦ (line, "")
  | some (version, rest) ↦ elim (split_once 32 rest) [
    | none ↦ (version, rest)
    | some (code, reason) ↦ (version, code)
  ]
]

abbrev pub is_version : String → Bool
is_version version = str_eq version "HTTP/1.0" || str_eq version "HTTP/1.1"

abbrev pub is_three_digits : String → Bool
is_three_digits code = length (bytes code) == 3 && all is_digit (bytes code)

abbrev is_status_code : ℕ → Bool
is_status_code code = leb 100 code && leb code 599

abbrev status_of : String → Option ℕ → IoResult (String × ℕ)
status_of line none = error ErrorKind.any_other "invalid HTTP status code"
status_of line (some code) =
    if is_status_code code
    then IoResult.ok (line, code)
    else error ErrorKind.any_other "invalid HTTP status code"

unfoldable pub parse_status_text : String → IoResult (String × ℕ)
unfolding parse_below
parse_status_text line =
    if has_control line
    then error ErrorKind.any_other "HTTP status line contains control characters"
    else let (version, code) = version_and_code line in
      if not (is_version version) || not (is_three_digits code)
      then error ErrorKind.any_other "invalid HTTP status line"
      else status_of line (parse_below 65536 code)

-- `&bytes[..bytes.len() - 2]`
abbrev without_crlf : List ℕ → List ℕ
without_crlf [] = []
without_crlf (a ∷ []) = []
without_crlf (a ∷ b ∷ []) = []
without_crlf (a ∷ b ∷ c ∷ bs) = a ∷ without_crlf (b ∷ c ∷ bs)

unfoldable pub parse_http_status_line : List ℕ → IoResult (String × ℕ)
unfolding from_utf8 parse_status_text
parse_http_status_line line = elim (from_utf8 (without_crlf line)) [
  | none ↦ error ErrorKind.any_other "HTTP status line is not valid UTF-8"
  | some text ↦ parse_status_text text
]

-- `line == b"\r\n"`
abbrev is_crlf : List ℕ → Bool
is_crlf (a ∷ b ∷ []) = a == 13 && b == 10
is_crlf _ = false

-- A round of the loop of `drain_headers`, with the bytes that it has read and the rounds that follow.
abbrev pub drain_round :
    (ℕ → Stream → Option (IoResult (Unit {0}) × Stream))
    → ℕ
    → IoResult (List ℕ) × Stream
    → Option (IoResult (Unit {0}) × Stream)
drain_round again total (failed e, t) = some (failed e, t)
drain_round again total (ok line, t) =
    if ltb max_informational_header_bytes (total + length line)
    then some (error ErrorKind.any_other "informational HTTP headers exceed the safety limit", t)
    else if is_crlf line
    then some (ok tt, t)
    else again (total + length line) t

-- The loop, on fuel. It has no result where the fuel runs out.
unfoldable pub drain : ℕ → ℕ → Stream → Option (IoResult (Unit {0}) × Stream)
drain zero total s = none
drain (suc fuel) total s = drain_round (drain fuel) total (read_crlf_line max_header_line_bytes s)

-- A round adds two bytes at least to the total, whose limit is 65536.
abbrev pub drain_rounds : ℕ
drain_rounds = 32769

-- What the loop comes to; there always is a result.
abbrev pub drained : Stream → Option (IoResult (Unit {0}) × Stream) → IoResult (Unit {0}) × Stream
drained s none = (error ErrorKind.any_other "informational HTTP headers exceed the safety limit", s)
drained s (some r) = r

unfoldable pub drain_headers : Io (Unit {0})
unfolding drain
drain_headers s = drained s (drain drain_rounds 0 s)
