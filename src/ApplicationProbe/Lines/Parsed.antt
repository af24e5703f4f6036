-- ===== src/ApplicationProbe/Lines/Parsed.antt =====
-- What `parse_http_status_line` of src/probe/application.rs accepts.
use mathlib.Core.Path.{subst}
use netwhy.Prelude.{
  ◌∙◌, ℕ, ◌≤◌, ◌≡◌, sym, ap, true, false, not, ◌||◌, Option, none, some, String, List, Bool-cases,
  inl, inr, arith, parse_below,
}
use netwhy.ApplicationProbe.Stream.{IoResult, ok-injective, error}
use netwhy.Tcp.{ErrorKind}
use netwhy.ApplicationProbe.Lines.{
  parse_http_status_line, parse_status_text, from_utf8, without_crlf, has_control, is_status_code,
  is_version, is_three_digits, version_and_code, status_of,
}

-- A status line as a report may hold it: its code is the number that stands second in it.
pub record IsStatusLine (line : String) (code : ℕ) : Type 0 where
  pub no_control : has_control line ≡ false
  pub version : is_version (version_and_code line).0 ≡ true
  pub three_digits : is_three_digits (version_and_code line).1 ≡ true
  pub number : parse_below 65536 (version_and_code line).1 ≡ some code
  pub low : 100 ≤ code
  pub high : code ≤ 599

status_of-ok :
    (line : String) (n : Option ℕ) (r : String × ℕ)
    → status_of line n ≡ IoResult.ok r
    → (line ≡ r.0) × (n ≡ some r.1) × (is_status_code r.1 ≡ true)
status_of-ok line none r h = cc
status_of-ok line (some code) r h = elim (Bool-cases (is_status_code code)) [
  | inl b ↦
      let e : (line, code) ≡ r = ok-injective (line, code) r (rw b at h) in
      (
        ap (λ (p : String × ℕ). p.0) e,
        ap (λ (p : String × ℕ). some p.1) e,
        ap (λ (p : String × ℕ). is_status_code p.1) (sym e) ∙ b,
      )
  | inr b ↦ (let k = rw b at h in cc)
]

IsStatusLine-of_parts :
    (line : String) (code : ℕ)
    → has_control line ≡ false
    → not (is_version (version_and_code line).0) || not (is_three_digits (version_and_code line).1)
      ≡ false
    → parse_below 65536 (version_and_code line).1 ≡ some code
    → is_status_code code ≡ true
    → IsStatusLine line code
IsStatusLine-of_parts line code h k n r = record {
  no_control = h;
  version = ground arith;
  three_digits = ground arith;
  number = n;
  low = ground arith;
  high = ground arith;
}

IsStatusLine-parse_status_text :
    (line : String) (r : String × ℕ) → parse_status_text line ≡ IoResult.ok r → IsStatusLine r.0 r.1
unfolding parse_status_text
IsStatusLine-parse_status_text line r h = elim (Bool-cases (has_control line)) [
  | inl b ↦ (let k = rw b at h in cc)
  | inr b ↦
      elim (Bool-cases (
        not (is_version (version_and_code line).0)
        || not (is_three_digits (version_and_code line).1))) [
          | inl c ↦ (let k = rw (b, c) at h in cc)
          | inr c ↦
              let (same, number, range) =
                status_of-ok line (parse_below 65536 (version_and_code line).1) r
                  (rw (b, c) at h) in
              subst (λ l. IsStatusLine l r.1) same (IsStatusLine-of_parts line r.1 b c number range)
        ]
]

-- What is accepted
pub IsStatusLine-parse_http_status_line :
    (bs : List ℕ) (r : String × ℕ)
    → parse_http_status_line bs ≡ IoResult.ok r
    → IsStatusLine r.0 r.1
unfolding parse_http_status_line
IsStatusLine-parse_http_status_line bs r h = of_text (from_utf8 (without_crlf bs)) h
  where
    of_text :
        (text : Option String)
        → elim text [
          | none ↦ error ErrorKind.any_other "HTTP status line is not valid UTF-8"
          | some line ↦ parse_status_text line
        ]
          ≡ IoResult.ok r
        → IsStatusLine r.0 r.1
    of_text none k = cc
    of_text (some line) k = IsStatusLine-parse_status_text line r k
