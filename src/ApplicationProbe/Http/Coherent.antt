-- ===== src/ApplicationProbe/Http/Coherent.antt =====
-- What `http_exchange_with_request` of src/probe/application.rs reports of an answer.
use mathlib.Core.Path.{subst}
use netwhy.Prelude.{
  ℕ, zero, suc, ◌≤◌, ◌<◌, ◌≡◌, refl, ap, Bool, true, false, leb, Option, none, some, String, List,
  bytes, Bool-cases, inl, inr, arith,
}
use netwhy.Model.{Status}
use netwhy.ApplicationProbe.Stream.{
  Stream, IoResult, ok, failed, Io, after, ◌>>=◌, write_all, ok-injective, return,
}
use netwhy.ApplicationProbe.Lines.{
  drain_headers, read_crlf_line, parse_http_status_line, max_status_line_bytes,
}
use netwhy.ApplicationProbe.Lines.Parsed.{IsStatusLine, IsStatusLine-parse_http_status_line}
use netwhy.ApplicationProbe.Http.{
  responses, last_response, go_on, status_line, exchange, is_informational,
  max_informational_responses, http_result, http_exchange_with_request,
}

-- What a step gives, when it gives something
abbrev Gives {ℓ κ} : {A : Type ℓ} → (A → Type κ) → Io A → Type (ℓ ⊔ κ)
Gives {A = A} P m = (s : Stream) (a : A) → (m s).0 ≡ IoResult.ok a → P a

module _ {ℓ κ μ} {A : Type ℓ} {B : Type κ} (P : B → Type μ) (k : A → Io B) where
  Gives-after :
      ((a : A) → Gives P (k a))
      → (r : IoResult A) (s : Stream) (b : B) → (after (r, s) k).0 ≡ IoResult.ok b
      → P b
  Gives-after h (ok a) s b e = h a s b e
  Gives-after h (failed x) s b e = cc

  Gives-bind : (m : Io A) → ((a : A) → Gives P (k a)) → Gives P (m >>= k)
  Gives-bind m h s b e = Gives-after h (m s).0 (m s).1 b e

-- An answer that may stand in a report
abbrev IsAnswer : String × ℕ → Type 0
IsAnswer r = IsStatusLine r.0 r.1 × (is_informational r.1 ≡ false)

Gives-status_line : Gives (λ (r : String × ℕ). IsStatusLine r.0 r.1) status_line
Gives-status_line s a e =
    of_line (read_crlf_line max_status_line_bytes s).0 (read_crlf_line max_status_line_bytes s).1 e
  where
    of_line :
        (line : IoResult (List ℕ)) (t : Stream)
        → (after (line, t) (λ bs u. (parse_http_status_line bs, u))).0 ≡ IoResult.ok a
        → IsStatusLine a.0 a.1
    of_line (ok bs) t k = IsStatusLine-parse_http_status_line bs a k
    of_line (failed x) t k = cc

-- A step after a status line gives an answer if it does so for each line that may stand in a report.
Gives-of_status_line :
    (k : String × ℕ → Io (String × ℕ))
    → ((r : String × ℕ) → IsStatusLine r.0 r.1 → Gives IsAnswer (k r))
    → Gives IsAnswer (status_line >>= k)
Gives-of_status_line k h s a e =
    of_status (status_line s).0 (status_line s).1 (Gives-status_line s) e
  where
    of_status :
        (r : IoResult (String × ℕ)) (t : Stream)
        → ((a : String × ℕ) → r ≡ IoResult.ok a → IsStatusLine a.0 a.1)
        → (after (r, t) k).0 ≡ IoResult.ok a
        → IsAnswer a
    of_status (ok r) t is_line f = h r (is_line r refl) t a f
    of_status (failed x) t is_line f = cc

Gives-return : (r : String × ℕ) → IsAnswer r → Gives IsAnswer (return r)
Gives-return r h s a e = subst IsAnswer (ok-injective r a e) h

Gives-last_response : (r : String × ℕ) → IsStatusLine r.0 r.1 → Gives IsAnswer (last_response r)
Gives-last_response r h s a e = elim (Bool-cases (is_informational r.1)) [
  | inl b ↦ (let k = rw b at e in cc)
  | inr b ↦ Gives-return r (h, b) s a (rw b at e)
]

Gives-go_on :
    (later : Io (String × ℕ))
    → Gives IsAnswer later
    → (r : String × ℕ) → IsStatusLine r.0 r.1
    → Gives IsAnswer (go_on later r)
Gives-go_on later g r h s a e = elim (Bool-cases (is_informational r.1)) [
  | inl b ↦ Gives-bind IsAnswer (λ _. later) drain_headers (λ _. g) s a (rw b at e)
  | inr b ↦ Gives-return r (h, b) s a (rw b at e)
]

Gives-responses : (n : ℕ) → Gives IsAnswer (responses n)
unfolding responses
Gives-responses zero s a e = Gives-of_status_line last_response Gives-last_response s a e
Gives-responses (suc n) s a e =
    Gives-of_status_line (go_on (responses n)) (Gives-go_on (responses n) (Gives-responses n)) s a e

-- What a report says of an exchange, by its status
abbrev pub IsCoherent : Status → Option ℕ → Option String → Option String → Type 0
IsCoherent Status.pass (some code) (some line) none =
    IsStatusLine line code × (code < 400) × (is_informational code ≡ false)
IsCoherent Status.warn (some code) (some line) none = IsStatusLine line code × (400 ≤ code)
IsCoherent Status.fail none none (some error) = Unit
IsCoherent _ _ _ _ = ⊥

IsCoherent-http_result :
    (elapsed timeout_ms : ℕ) (r : Option (IoResult (String × ℕ)))
    → ((a : String × ℕ) → r ≡ some (IoResult.ok a) → IsAnswer a)
    → let result = http_result elapsed timeout_ms r in
      IsCoherent result.status result.status_code result.status_line result.error
unfolding http_result
IsCoherent-http_result elapsed timeout_ms none h = tt
IsCoherent-http_result elapsed timeout_ms (some (failed e)) h = tt
IsCoherent-http_result elapsed timeout_ms (some (ok (line, code))) h =
    elim (Bool-cases (leb 400 code)) [
      | inl b ↦ rw b ((h (line, code) refl).0, ground arith)
      | inr b ↦ rw b ((h (line, code) refl).0, ground arith, (h (line, code) refl).1)
    ]

Gives-exchange : (request : String) → Gives IsAnswer (exchange request)
unfolding exchange
Gives-exchange request s a e =
    Gives-bind IsAnswer (λ _. responses max_informational_responses) (write_all (bytes request))
      (λ _. Gives-responses max_informational_responses) s a e

some-injective : (a b : IoResult (String × ℕ)) → some a ≡ some b → a ≡ b
some-injective a b e = ap value e
  where
    value : Option (IoResult (String × ℕ)) → IoResult (String × ℕ)
    value none = a
    value (some x) = x

-- For any request, any behaviour of the server and any times, the result of an exchange passes or warns
-- only with a status line that is printable, of HTTP/1.0 or HTTP/1.1, and whose code is the number of three
-- digits from 100 to 599 that stands second in it; it warns if the code is at least 400, passes if the code
-- is less and not of an informational response, and fails with an error and without a code or a line
-- otherwise.
pub http_exchange_with_request-IsCoherent :
    (elapsed timeout_ms : ℕ) (expired : Bool) (request : String) (s : Stream)
    → let result = http_exchange_with_request elapsed timeout_ms expired request s in
      IsCoherent result.status result.status_code result.status_line result.error
unfolding http_exchange_with_request
http_exchange_with_request-IsCoherent elapsed timeout_ms true request s =
    IsCoherent-http_result elapsed timeout_ms none (λ a e. cc)
http_exchange_with_request-IsCoherent elapsed timeout_ms false request s =
    IsCoherent-http_result elapsed timeout_ms (some (exchange request s).0)
      (λ a e. Gives-exchange request s a (some-injective _ _ e))
