-- ===== src/ApplicationProbe/Http/Answered.antt =====
-- `http_exchange_with_request` of src/probe/application.rs with a server that answers as it should.
use netwhy.Prelude.{
  ℕ, zero, suc, ◌≤◌, ◌≡◌, refl, ap, ◌∙◌, true, false, ◌+◌, String, List, [], ◌∷◌, ◌++◌, length, All,
  arith, if◌then◌else◌, bytes, none, some, leb,
}
use netwhy.Model.{Status, HttpResult}
use netwhy.ApplicationProbe.Stream.{Stream, IoResult, ok, after, write_all, write_outcome}
use netwhy.ApplicationProbe.Lines.{
  parse_http_status_line, max_status_line_bytes, max_informational_header_bytes,
}
use netwhy.ApplicationProbe.Lines.Wellformed.{
  HasNoFeed, with_crlf, IsHeader, header_bytes, header_length, read_crlf_line-line,
  drain_headers-headers,
}
use netwhy.ApplicationProbe.Http.{
  responses, status_line, exchange, is_informational, max_informational_responses,
  http_exchange_with_request, http_result,
}

-- A response as it is sent: its status line, what that is read as, and the headers.
pub record Response : Type 0 where
  pub line : List ℕ
  pub answer : String × ℕ
  pub headers : List (List ℕ)

pub record IsSent (r : Response) : Type 0 where
  pub no_feed : HasNoFeed r.line
  pub fits : length r.line + 2 ≤ max_status_line_bytes
  pub parsed : parse_http_status_line (with_crlf r.line) ≡ IoResult.ok r.answer
  pub headers_fit :
      All IsHeader r.headers × (header_length r.headers ≤ max_informational_header_bytes)

-- The bytes of informational responses in front of the last one, of which the status line is read.
abbrev pub sent : List Response → Response → List ℕ → List ℕ
sent [] last rest = with_crlf last.line ++ rest
sent (r ∷ rs) last rest = with_crlf r.line ++ header_bytes r.headers (sent rs last rest)

-- The report of an answer
abbrev pub answered : ℕ → String × ℕ → HttpResult
answered elapsed (line, code) = record {
  status = if leb 400 code then Status.warn else Status.pass;
  duration_ms = elapsed;
  status_code = some code;
  status_line = some line;
  error = none;
}

status_line-sent :
    (s : Stream) (r : Response) (rest : List ℕ)
    → IsSent r
    → status_line (record s { incoming = with_crlf r.line ++ rest })
      ≡ (ok r.answer, record s { incoming = rest })
status_line-sent s r rest h =
    rw (read_crlf_line-line max_status_line_bytes s r.line rest h.no_feed h.fits) (rw h.parsed refl)

responses-sent :
    (n : ℕ) (s : Stream) (rs : List Response) (last : Response) (rest : List ℕ)
    → length rs ≤ n
    → All (λ (r : Response). IsSent r × (is_informational r.answer.1 ≡ true)) rs
    → IsSent last
    → is_informational last.answer.1 ≡ false
    → responses n (record s { incoming = sent rs last rest })
      ≡ (ok last.answer, record s { incoming = rest })
unfolding responses
responses-sent zero s [] last rest h k l e = rw (status_line-sent s last rest l) (rw e refl)
responses-sent (suc n) s [] last rest h k l e = rw (status_line-sent s last rest l) (rw e refl)
responses-sent zero s (r ∷ rs) last rest h k l e = absurd (omega arith)
responses-sent (suc n) s (r ∷ rs) last rest h k l e =
    rw (status_line-sent s r (header_bytes r.headers (sent rs last rest)) k.0.0) (
      rw k.0.1 (
        rw
          (drain_headers-headers s r.headers (sent rs last rest) k.0.0.headers_fit.0
            k.0.0.headers_fit.1)
          (responses-sent n s rs last rest (omega arith) k.1 l e)))

write_all-writes :
    (bs : List ℕ) (s : Stream)
    → s.refuses ≡ none
    → write_all bs s ≡ (ok tt, record s { written = s.written ++ bs })
unfolding write_all
write_all-writes bs s w = ap (λ r. write_outcome r bs s) w

exchange-sent :
    (request : String) (s : Stream) (rs : List Response) (last : Response) (rest : List ℕ)
    → s.refuses ≡ none
    → length rs ≤ max_informational_responses
    → All (λ (r : Response). IsSent r × (is_informational r.answer.1 ≡ true)) rs
    → IsSent last
    → is_informational last.answer.1 ≡ false
    → exchange request (record s { incoming = sent rs last rest })
      ≡ (ok last.answer, record s { incoming = rest; written = s.written ++ bytes request })
unfolding exchange
exchange-sent request s rs last rest w h k l e =
    ap (λ p. after p (λ _. responses max_informational_responses))
      (write_all-writes (bytes request) (record s { incoming = sent rs last rest }) w)
    ∙ responses-sent max_informational_responses (record s { written = s.written ++ bytes request })
        rs last rest h k l e

-- A server that sends at most eight informational responses and then another one, each with a status line that
-- fits and headers that fit, gets its last status line into the report of the exchange: with `warn` if its code
-- is at least 400, and with `pass` otherwise.
pub http_exchange_with_request-sent :
    (elapsed timeout_ms : ℕ) (request : String) (s : Stream) (rs : List Response) (last : Response)
    (rest : List ℕ)
    → s.refuses ≡ none
    → length rs ≤ max_informational_responses
    → All (λ (r : Response). IsSent r × (is_informational r.answer.1 ≡ true)) rs
    → IsSent last
    → is_informational last.answer.1 ≡ false
    → http_exchange_with_request elapsed timeout_ms false request
        (record s { incoming = sent rs last rest })
      ≡ answered elapsed last.answer
unfolding http_exchange_with_request http_result
http_exchange_with_request-sent elapsed timeout_ms request s rs last rest w h k l e =
    ap (λ (p : IoResult (String × ℕ) × Stream). http_result elapsed timeout_ms (some p.0))
      (exchange-sent request s rs last rest w h k l e)
