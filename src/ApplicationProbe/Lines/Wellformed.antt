-- ===== src/ApplicationProbe/Lines/Wellformed.antt =====
-- `read_crlf_line` and `drain_headers` of src/probe/application.rs on what a server should send.
use netwhy.Prelude.{
  ℕ, zero, suc, ◌+◌, ◌*◌, ◌≤◌, ◌<◌, ◌≡◌, refl, ap, true, false, ltb, ◌==◌, Option, none, some, List,
  [], ◌∷◌, ◌++◌, length, any, All, drop-append, length-append, arith, is_empty,
}
use netwhy.ApplicationProbe.Stream.{IoError, Stream, IoResult, ok}
use netwhy.ApplicationProbe.Lines.{
  take_line, ends_with_crlf, check_line, is_at_end, line_outcome, read_crlf_line, is_crlf, drain,
  drain_headers, drained, drain_rounds, max_header_line_bytes, max_informational_header_bytes,
}

-- The text of a line without its end
abbrev pub HasNoFeed : List ℕ → Type 0
HasNoFeed body = All (λ b. (b == 10) ≡ false) body

abbrev pub with_crlf : List ℕ → List ℕ
with_crlf body = body ++ 13 ∷ 10 ∷ []

take_line-body :
    (n : ℕ) (body rest : List ℕ)
    → HasNoFeed body
    → length body + 2 ≤ n
    → take_line n (with_crlf body ++ rest) ≡ with_crlf body
take_line-body zero body rest h k = absurd (omega arith)
take_line-body (suc zero) body rest h k = absurd (omega arith)
take_line-body (suc (suc n)) [] rest h k = refl
take_line-body (suc (suc n)) (b ∷ body) rest h k =
    rw h.0 (ap (λ t. b ∷ t) (take_line-body (suc n) body rest h.1 (omega arith)))

any_feed : (body : List ℕ) → any (λ b. b == 10) (with_crlf body) ≡ true
any_feed [] = refl
any_feed (b ∷ body) = ground (arith, any_feed body)

ends_with_crlf-body : (body : List ℕ) → ends_with_crlf (with_crlf body) ≡ true
ends_with_crlf-body [] = refl
ends_with_crlf-body (a ∷ []) = refl
ends_with_crlf-body (a ∷ b ∷ []) = refl
ends_with_crlf-body (a ∷ b ∷ c ∷ body) = ends_with_crlf-body (b ∷ c ∷ body)

is_empty-body : (body : List ℕ) → is_empty (with_crlf body) ≡ false
is_empty-body [] = refl
is_empty-body (b ∷ body) = refl

length-with_crlf : (body : List ℕ) → length (with_crlf body) ≡ length body + 2
length-with_crlf body = length-append body (13 ∷ 10 ∷ [])

check_line-body :
    (max_bytes : ℕ) (body : List ℕ)
    → length body + 2 ≤ max_bytes
    → check_line max_bytes (with_crlf body) ≡ IoResult.ok (with_crlf body)
check_line-body max_bytes body h =
    let fits : ltb max_bytes (length (with_crlf body)) ≡ false =
      ground (arith, length-with_crlf body) in
    rw (is_empty-body body, fits, ends_with_crlf-body body) refl

line_outcome-whole :
    (max_bytes : ℕ) (reset : Option IoError) (line : List ℕ)
    → line_outcome max_bytes false reset line ≡ check_line max_bytes line
line_outcome-whole max_bytes none line = refl
line_outcome-whole max_bytes (some e) line = refl

-- A line that fits is read, and no more.
pub read_crlf_line-line :
    (max_bytes : ℕ) (s : Stream) (body rest : List ℕ)
    → HasNoFeed body
    → length body + 2 ≤ max_bytes
    → read_crlf_line max_bytes (record s { incoming = with_crlf body ++ rest })
      ≡ (ok (with_crlf body), record s { incoming = rest })
unfolding read_crlf_line
read_crlf_line-line max_bytes s body rest h k =
    let read : take_line (suc max_bytes) (with_crlf body ++ rest) ≡ with_crlf body =
      take_line-body (suc max_bytes) body rest h (omega arith) in
    let more : is_at_end (suc max_bytes) (with_crlf body) ≡ false = ground (arith, any_feed body) in
    rw
      (
        read,
        more,
        line_outcome-whole max_bytes s.reset (with_crlf body),
        check_line-body max_bytes body k,
        drop-append (with_crlf body) rest,
      )
      refl

-- The header lines of a response
abbrev pub IsHeader : List ℕ → Type 0
IsHeader body = HasNoFeed body × (0 < length body) × (length body + 2 ≤ max_header_line_bytes)

abbrev pub header_bytes : List (List ℕ) → List ℕ → List ℕ
header_bytes [] rest = with_crlf [] ++ rest
header_bytes (body ∷ bodies) rest = with_crlf body ++ header_bytes bodies rest

abbrev pub header_length : List (List ℕ) → ℕ
header_length [] = 2
header_length (body ∷ bodies) = length body + 2 + header_length bodies

is_crlf-body : (body : List ℕ) → 0 < length body → is_crlf (with_crlf body) ≡ false
is_crlf-body [] h = absurd (omega arith)
is_crlf-body (a ∷ []) h = refl
is_crlf-body (a ∷ b ∷ []) h = refl
is_crlf-body (a ∷ b ∷ c ∷ body) h = refl

within_limit : (m n : ℕ) → n ≤ m → ltb m n ≡ false
within_limit m n h = ground arith

drain-blank :
    (fuel total : ℕ) (s t : Stream)
    → read_crlf_line max_header_line_bytes s ≡ (ok (13 ∷ 10 ∷ []), t)
    → ltb max_informational_header_bytes (total + 2) ≡ false
    → drain (suc fuel) total s ≡ some (ok tt, t)
unfolding drain
drain-blank fuel total s t h k = rw (h, k) refl

drain-headers :
    (fuel total : ℕ) (s : Stream) (bodies : List (List ℕ)) (rest : List ℕ)
    → max_informational_header_bytes < 2 * fuel + total
    → All IsHeader bodies
    → total + header_length bodies ≤ max_informational_header_bytes
    → drain fuel total (record s { incoming = header_bytes bodies rest })
      ≡ some (ok tt, record s { incoming = rest })
unfolding drain
drain-headers zero total s bodies rest f h k = absurd (omega arith)
drain-headers (suc fuel) total s [] rest f h k =
    drain-blank fuel total (record s { incoming = 13 ∷ 10 ∷ rest }) (record s { incoming = rest })
      (read_crlf_line-line max_header_line_bytes s [] rest tt (omega arith))
      (within_limit max_informational_header_bytes (total + 2) k)
drain-headers (suc fuel) total s (body ∷ bodies) rest f h k =
    let room : ltb max_informational_header_bytes (total + length (with_crlf body)) ≡ false =
      within_limit _ _ (omega (arith, k, length-with_crlf body)) in
    rw
      (
        read_crlf_line-line max_header_line_bytes s body (header_bytes bodies rest) h.0.0 h.0.2,
        room,
        is_crlf-body body h.0.1,
      )
      (drain-headers fuel (total + length (with_crlf body)) s bodies rest
        (omega (arith, f, length-with_crlf body)) h.1 (omega (arith, k, length-with_crlf body)))

-- Header lines of at most 8192 bytes each and of 65536 together, the empty line that ends them among them,
-- are read to their end, and no more.
pub drain_headers-headers :
    (s : Stream) (bodies : List (List ℕ)) (rest : List ℕ)
    → All IsHeader bodies
    → header_length bodies ≤ max_informational_header_bytes
    → drain_headers (record s { incoming = header_bytes bodies rest })
      ≡ (ok tt, record s { incoming = rest })
unfolding drain_headers
drain_headers-headers s bodies rest h k =
    ap (drained (record s { incoming = header_bytes bodies rest }))
      (drain-headers drain_rounds 0 s bodies rest (omega arith) h (omega arith))
