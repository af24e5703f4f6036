-- ===== src/ApplicationProbe/Http/Bounded.antt =====
-- What `http_exchange_with_request` of src/probe/application.rs reads of a server at most.
use netwhy.Prelude.{
  ℕ, zero, suc, ◌+◌, ◌*◌, ◌≤◌, Bool, true, false, none, some, List, length, bytes, String, inl, inr,
  arith, if◌then◌else◌,
}
use netwhy.ApplicationProbe.Stream.{
  Stream, IoResult, ok, failed, Io, after, ◌>>=◌, return, write_all, write_outcome,
}
use netwhy.ApplicationProbe.Lines.{
  drain_headers, drain_rounds, max_status_line_bytes, max_header_line_bytes,
  max_informational_header_bytes,
}
use netwhy.ApplicationProbe.Lines.Drained.{
  drain_headers-ends, IsRead-cases, line_rest-bound, drain-bound,
}
use netwhy.ApplicationProbe.Http.{
  responses, last_response, go_on, status_line, exchange, is_informational,
  max_informational_responses,
}

-- A step takes at most so many bytes of what is still to come.
abbrev pub TakesAtMost {ℓ} : {A : Type ℓ} → ℕ → Io A → Type 0
TakesAtMost n m = (s : Stream) → length s.incoming ≤ length (m s).1.incoming + n

after-bound {ℓ κ} :
    {A : Type ℓ} {B : Type κ} (c : ℕ) (k : A → Io B)
    → ((a : A) → TakesAtMost c (k a))
    → (r : IoResult A) (s : Stream) → length s.incoming ≤ length (after (r, s) k).1.incoming + c
after-bound c k h (ok a) s = h a s
after-bound c k h (failed e) s = omega arith

TakesAtMost-bind {ℓ κ} :
    {A : Type ℓ} {B : Type κ} (b c : ℕ) (m : Io A) (k : A → Io B)
    → TakesAtMost b m
    → ((a : A) → TakesAtMost c (k a))
    → TakesAtMost (b + c) (m >>= k)
TakesAtMost-bind b c m k h later s = omega (arith, h s, after-bound c k later (m s).0 (m s).1)

TakesAtMost-status_line : TakesAtMost (suc max_status_line_bytes) status_line
TakesAtMost-status_line s = elim (IsRead-cases max_status_line_bytes s) [
  | inl (e, f) ↦ rw f (line_rest-bound max_status_line_bytes s)
  | inr (line, r) ↦ rw r.outcome (line_rest-bound max_status_line_bytes s)
]

TakesAtMost-drain_headers :
    TakesAtMost (max_informational_header_bytes + suc max_header_line_bytes) drain_headers
unfolding drain_headers
TakesAtMost-drain_headers s =
    omega
      (arith, drain-bound drain_rounds 0 s (drain_headers s) (omega arith) (drain_headers-ends s))

-- The bytes of an informational response
abbrev pub response_bytes : ℕ
response_bytes =
    suc max_status_line_bytes + (max_informational_header_bytes + suc max_header_line_bytes)

TakesAtMost-if {ℓ} :
    {A : Type ℓ} (n : ℕ) (b : Bool) (m k : Io A)
    → TakesAtMost n m
    → TakesAtMost n k
    → TakesAtMost n (if b then m else k)
TakesAtMost-if n true m k h l = h
TakesAtMost-if n false m k h l = l

TakesAtMost-responses :
    (n : ℕ) → TakesAtMost (suc max_status_line_bytes + n * response_bytes) (responses n)
unfolding responses
TakesAtMost-responses zero s =
    TakesAtMost-bind (suc max_status_line_bytes) 0 status_line last_response TakesAtMost-status_line
      (λ r. TakesAtMost-if 0 (is_informational r.1) _ _ (λ t. omega arith) (λ t. omega arith)) s
TakesAtMost-responses (suc n) s = omega (
  arith,
  TakesAtMost-bind (suc max_status_line_bytes)
      (max_informational_header_bytes
        + suc max_header_line_bytes
        + (suc max_status_line_bytes + n * response_bytes))
      status_line (go_on (responses n)) TakesAtMost-status_line
      (λ r.
        TakesAtMost-if _ (is_informational r.1) (drain_headers >>= (λ _. responses n)) (return r)
          (TakesAtMost-bind _ _ drain_headers (λ _. responses n) TakesAtMost-drain_headers
            (λ _. TakesAtMost-responses n))
          (λ t. omega arith))
      s,
)

TakesAtMost-write_all : (bs : List ℕ) → TakesAtMost 0 (write_all bs)
unfolding write_all
TakesAtMost-write_all bs s =
    elim s.refuses as (λ r. length s.incoming ≤ length (write_outcome r bs s).1.incoming + 0) [
      | none ↦ omega arith
      | some e ↦ omega arith
    ]

-- However a server answers, an exchange takes no more of its bytes than nine status lines of 8193 bytes
-- and the headers of eight informational responses, 73729 bytes each.
pub TakesAtMost-exchange :
    (request : String)
    → TakesAtMost
        (suc max_status_line_bytes + max_informational_responses * response_bytes)
        (exchange request)
unfolding exchange
TakesAtMost-exchange request =
    TakesAtMost-bind 0 _ (write_all (bytes request)) _ (TakesAtMost-write_all (bytes request))
      (λ _. TakesAtMost-responses max_informational_responses)
