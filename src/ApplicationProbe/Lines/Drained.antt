-- ===== src/ApplicationProbe/Lines/Drained.antt =====
-- `read_crlf_line` and `drain_headers` of src/probe/application.rs: what they read of a connection.
use mathlib.Core.Option.{some-injective}
use netwhy.Prelude.{
  ℕ, zero, suc, ◌+◌, ◌*◌, ◌≤◌, ◌<◌, ◌≡◌, ◌⊎◌, refl, sym, ap, Bool, true, false, ltb, Option, none,
  some, List, [], ◌∷◌, length, drop, Bool-cases, inl, inr, arith,
}
use netwhy.ApplicationProbe.Stream.{IoError, Stream, IoResult, ok, failed}
use netwhy.ApplicationProbe.Lines.{
  take_line, check_line, is_at_end, line_outcome, read_crlf_line, is_crlf, drain, drain_headers,
  drain_rounds, max_header_line_bytes, max_informational_header_bytes,
}

length-take_line : (n : ℕ) (bs : List ℕ) → length (take_line n bs) ≤ n
length-take_line zero bs = omega arith
length-take_line (suc n) [] = omega arith
length-take_line (suc n) (b ∷ bs) = ground (arith, length-take_line n bs)

length-take_line_input : (n : ℕ) (bs : List ℕ) → length (take_line n bs) ≤ length bs
length-take_line_input zero bs = omega arith
length-take_line_input (suc n) [] = omega arith
length-take_line_input (suc n) (b ∷ bs) = ground (arith, length-take_line_input n bs)

length-drop : (n : ℕ) (bs : List ℕ) → n ≤ length bs → length (drop n bs) + n ≡ length bs
length-drop zero bs h = omega arith
length-drop (suc n) [] h = absurd (omega arith)
length-drop (suc n) (b ∷ bs) h = omega (arith, length-drop n bs (omega arith))

-- A line that passes is what was read, and has at least two bytes.
check_line-ok :
    (max_bytes : ℕ) (line got : List ℕ)
    → check_line max_bytes line ≡ IoResult.ok got
    → (line ≡ got) × (1 < length line) × (length line ≤ max_bytes)
check_line-ok max_bytes [] got h = ground arith
check_line-ok max_bytes (a ∷ []) got h = ground arith
check_line-ok max_bytes (a ∷ b ∷ line) got h = ground arith

line_outcome-ok :
    (max_bytes : ℕ) (ended : Bool) (reset : Option IoError) (line got : List ℕ)
    → line_outcome max_bytes ended reset line ≡ IoResult.ok got
    → check_line max_bytes line ≡ IoResult.ok got
line_outcome-ok max_bytes true (some e) line got h = cc
line_outcome-ok max_bytes true none line got h = h
line_outcome-ok max_bytes false none line got h = h
line_outcome-ok max_bytes false (some e) line got h = h

-- The connection after a line
abbrev pub line_rest : ℕ → Stream → Stream
line_rest max_bytes s = record s {
  incoming = drop (length (take_line (suc max_bytes) s.incoming)) s.incoming;
}

-- A read that succeeds
pub record IsRead (max_bytes : ℕ) (s : Stream) (line : List ℕ) : Type 0 where
  pub outcome : read_crlf_line max_bytes s ≡ (ok line, line_rest max_bytes s)
  pub has_crlf : 1 < length line
  pub fits : length line ≤ max_bytes
  pub consumed : length (line_rest max_bytes s).incoming + length line ≡ length s.incoming

IsRead-of_ok :
    (max_bytes : ℕ) (s : Stream) (line : List ℕ)
    → (read_crlf_line max_bytes s).0 ≡ IoResult.ok line
    → IsRead max_bytes s line
unfolding read_crlf_line
IsRead-of_ok max_bytes s line h =
    let read = take_line (suc max_bytes) s.incoming in
    let checked = line_outcome-ok max_bytes (is_at_end (suc max_bytes) read) s.reset read line h in
    let (same, two, bound) = check_line-ok max_bytes read line checked in
    record {
      outcome = ap (λ o. (o, line_rest max_bytes s)) h;
      has_crlf = rw (sym same) two;
      fits = rw (sym same) bound;
      consumed = rw (sym same) (
          length-drop (length read) s.incoming (length-take_line_input (suc max_bytes) s.incoming));
    }

-- A read fails or succeeds.
pub IsRead-cases :
    (max_bytes : ℕ) (s : Stream)
    → ((e : IoError) × (read_crlf_line max_bytes s ≡ (failed e, line_rest max_bytes s)))
      ⊎ ((line : List ℕ) × IsRead max_bytes s line)
unfolding read_crlf_line
IsRead-cases max_bytes s =
    elim (line_outcome max_bytes (is_at_end (suc max_bytes) (take_line (suc max_bytes) s.incoming))
          s.reset (take_line (suc max_bytes) s.incoming))
        as (λ o.
          o ≡ (read_crlf_line max_bytes s).0
          → ((e : IoError) × (read_crlf_line max_bytes s ≡ (failed e, line_rest max_bytes s)))
            ⊎ ((line : List ℕ) × IsRead max_bytes s line)) [
              | ok line ↦ λ h. inr (line, IsRead-of_ok max_bytes s line (sym h))
              | failed e ↦ λ h. inl (e, ap (λ o. (o, line_rest max_bytes s)) (sym h))
            ]
      refl

pub line_rest-bound :
    (max_bytes : ℕ) (s : Stream)
    → length s.incoming ≤ length (line_rest max_bytes s).incoming + suc max_bytes
line_rest-bound max_bytes s = omega (
  arith,
  length-take_line (suc max_bytes) s.incoming,
  length-drop (length (take_line (suc max_bytes) s.incoming)) s.incoming
      (length-take_line_input (suc max_bytes) s.incoming),
)

le-of_not_ltb : (m n : ℕ) → ltb m n ≡ false → n ≤ m
le-of_not_ltb m n h = ground arith

-- The loop ends, within the fuel that the limit leaves: a line adds two bytes at least.
drain-ends :
    (fuel total : ℕ) (s : Stream)
    → max_informational_header_bytes < 2 * fuel + total
    → total ≤ max_informational_header_bytes
    → (r : IoResult (Unit {0}) × Stream) × (drain fuel total s ≡ some r)
unfolding drain
drain-ends zero total s h k = absurd (omega arith)
drain-ends (suc fuel) total s h k = elim (IsRead-cases max_header_line_bytes s) [
  | inl (e, f) ↦ rw f (_, refl)
  | inr (line, r) ↦
      rw r.outcome elim (Bool-cases (ltb max_informational_header_bytes (total + length line))) [
        | inl b ↦ rw b (_, refl)
        | inr b ↦ elim (Bool-cases (is_crlf line)) [
          | inl c ↦ rw (b, c) (_, refl)
          | inr c ↦
              rw (b, c)
                (drain-ends fuel (total + length line) (line_rest max_header_line_bytes s)
                  (omega (arith, r.has_crlf)) (le-of_not_ltb _ _ b))
        ]
      ]
]

-- Whatever a server sends, and wherever the connection ends or breaks, the loop of `drain_headers` ends
-- after at most 32769 lines, and what it comes to is what `drain_headers` gives.
pub drain_headers-ends : (s : Stream) → drain drain_rounds 0 s ≡ some (drain_headers s)
unfolding drain_headers
drain_headers-ends s =
    let (r, e) = drain-ends drain_rounds 0 s (omega arith) (omega arith) in rw e refl

-- However the server goes on, so much is read at most.
pub drain-bound :
    (fuel total : ℕ) (s : Stream) (r : IoResult (Unit {0}) × Stream)
    → total ≤ max_informational_header_bytes
    → drain fuel total s ≡ some r
    → length s.incoming + total
      ≤ length r.1.incoming + (max_informational_header_bytes + suc max_header_line_bytes)
unfolding drain
drain-bound zero total s r h k = absurd (cc)
drain-bound (suc fuel) total s r h k = elim (IsRead-cases max_header_line_bytes s) [
  | inl (e, f) ↦
      let same : some (failed e, line_rest max_header_line_bytes s) ≡ some r = rw f at k in
      rw (sym (some-injective _ _ same)) (omega (arith, line_rest-bound max_header_line_bytes s))
  | inr (line, read) ↦
      elim (Bool-cases (ltb max_informational_header_bytes (total + length line))) [
        | inl b ↦
            rw (sym (some-injective _ _ (rw (read.outcome, b) at k)))
              (omega (arith, line_rest-bound max_header_line_bytes s))
        | inr b ↦ elim (Bool-cases (is_crlf line)) [
          | inl c ↦
              rw (sym (some-injective _ _ (rw (read.outcome, b, c) at k)))
                (omega (arith, line_rest-bound max_header_line_bytes s))
          | inr c ↦ omega (
            arith,
            drain-bound fuel (total + length line) (line_rest max_header_line_bytes s) r
                (le-of_not_ltb _ _ b) (rw (read.outcome, b, c) at k),
            read.consumed,
          )
        ]
      ]
]
