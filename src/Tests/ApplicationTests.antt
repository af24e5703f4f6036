-- ===== src/Tests/ApplicationTests.antt =====
-- src/probe/application.rs
use netwhy.Prelude.{
  ℕ, suc, ◌+◌, ◌*◌, ◌≡◌, refl, false, none, some, List, [], ◌∷◌, ◌++◌, bytes, arith, any, keep,
  All-of_not_any, ◌==◌, if◌then◌else◌,
}
use netwhy.Net.{SocketAddr, addr_eq}
use netwhy.Model.{
  ProxyTransportEvidence, Status, AddressFamily, AddressFamilySelection, TcpResult, is_pass,
}
use netwhy.Prelude.{inl}
use netwhy.Tcp.{ErrorKind}
use netwhy.Url.{Host}
use netwhy.Proxy.{SelectedProxy}
use netwhy.ApplicationProbe.Stream.{IoError, Stream, IoResult, ok}
use netwhy.ApplicationProbe.Socks.{socks5_request, socks5_authenticate, read_socks5_response}
use netwhy.ApplicationProbe.Socks.Request.{
  Destination, decode_request, IsWanted, socks5_request-IsWanted, sources,
}
use netwhy.ApplicationProbe.Socks.Reply.{
  Bound, reply, writable, greeting, login_message, IsRefused, read_socks5_response-reply,
  socks5_authenticate-IsRefused, socks5_authenticate-accepted,
}
use netwhy.ApplicationProbe.Lines.{
  parse_http_status_line, parse_status_text, drain, drain_headers, drain_rounds, from_utf8,
  max_status_line_bytes,
}
use netwhy.ApplicationProbe.Lines.Drained.{drain_headers-ends}
use netwhy.ApplicationProbe.Lines.Wellformed.{with_crlf}
use netwhy.ApplicationProbe.Http.{http_exchange_with_request, exchange, max_informational_responses}
use netwhy.ApplicationProbe.Http.Bounded.{TakesAtMost, TakesAtMost-exchange, response_bytes}
use netwhy.ApplicationProbe.Http.Coherent.{IsCoherent, http_exchange_with_request-IsCoherent}
use netwhy.ApplicationProbe.Http.Answered.{
  Response, IsSent, sent, answered, http_exchange_with_request-sent,
}
use netwhy.ApplicationProbe.Attempt.{Run, Opening, Handshake}
use netwhy.ApplicationProbe.Loop.{
  candidates, is_answered, attempt_on, probe, ProxyRun, probe_via_proxy, round, is_reached, Pair,
  applications, proxy_attempts,
}
use netwhy.ApplicationProbe.Loop.Until.{IsRun}
use netwhy.ApplicationProbe.Loop.Tried.{
  IsAscending, of_duration, candidates-IsStableOrder, probe-IsRun, probe-answers,
}
use netwhy.ApplicationProbe.Loop.Paired.{ArePaired, probe_via_proxy-ArePaired}
use netwhy.Tests.TargetTests.{sample_readers, sample_target}
use netwhy.Tests.Samples.{first_v4, second_v4}

abbrev closed : IoError
closed = record { kind = ErrorKind.any_other; text = "early eof"; connect_status = none }

abbrev quiet : Stream
quiet = writable [] [] closed none

-- The line is read as its text and its code.
line_ok :
    parse_http_status_line (bytes "HTTP/1.1 204 No Content\r\n")
    ≡ IoResult.ok ("HTTP/1.1 204 No Content", 204)
unfolding parse_http_status_line parse_status_text from_utf8
line_ok = refl

line_bad :
    parse_http_status_line (bytes "HTTP/2 200\r\n")
    ≡ IoResult.failed (record {
      kind = ErrorKind.any_other;
      text = "invalid HTTP status line";
      connect_status = none;
    })
unfolding parse_http_status_line parse_status_text from_utf8
line_bad = refl

abbrev socks : SelectedProxy
socks = record {
  url = record {
    scheme = "socks5h";
    username = "";
    password = none;
    host = some (Host.domain "proxy.test");
    port = some 1080;
    path = "";
    query = none;
    fragment = none;
  };
  redacted_url = "socks5h://proxy.test:1080";
  addresses = first_v4 ∷ second_v4 ∷ [];
  address_family = AddressFamilySelection.any;
}

abbrev request : List ℕ
request = 0x05 ∷ 0x01 ∷ 0x00 ∷ 0x03 ∷ 11 ∷ (bytes "example.com" ++ 31 ∷ 144 ∷ [])

socks5_request-IsWanted_example :
    (d : Destination) × (decode_request request ≡ some (d, 8080))
    × IsWanted socks sample_target (sources none (ok [])) d
socks5_request-IsWanted_example =
    socks5_request-IsWanted socks sample_target (ok []) request (unfold socks5_request in refl)
      (omega arith) tt

read_socks5_response-reply_example :
    read_socks5_response (record quiet {
      incoming = reply 0 (Bound.v4 (127 ∷ 0 ∷ 0 ∷ 1 ∷ [])) (0 ∷ 80 ∷ []) (22 ∷ 3 ∷ []);
    })
    ≡ (ok tt, record quiet { incoming = 22 ∷ 3 ∷ [] })
read_socks5_response-reply_example =
    read_socks5_response-reply quiet 0 (Bound.v4 (127 ∷ 0 ∷ 0 ∷ 1 ∷ [])) (0 ∷ 80 ∷ []) (22 ∷ 3 ∷ [])
      refl refl

socks5_authenticate-IsRefused_example :
    IsRefused
      ([] ++ greeting (some ("user", "pass")))
      (socks5_authenticate (some ("user", "pass")) (writable (0x05 ∷ 0xff ∷ []) [] closed none))
socks5_authenticate-IsRefused_example =
    socks5_authenticate-IsRefused (some ("user", "pass")) (0x05 ∷ 0xff ∷ []) [] closed none refl

socks5_authenticate-accepted_example :
    socks5_authenticate
      (some ("user", "pass"))
      (writable (0x05 ∷ 0x02 ∷ 0x01 ∷ 0x00 ∷ 5 ∷ []) [] closed none)
    ≡ (
      ok tt,
      writable
          (5 ∷ [])
          (([] ++ greeting (some ("user", "pass"))) ++ login_message "user" "pass")
          closed
          none,
    )
socks5_authenticate-accepted_example =
    socks5_authenticate-accepted "user" "pass" (5 ∷ []) [] closed none (omega arith) (omega arith)

drain_headers-ends_example :
    drain drain_rounds 0 (record quiet { incoming = with_crlf (65 ∷ []) })
    ≡ some (drain_headers (record quiet { incoming = with_crlf (65 ∷ []) }))
drain_headers-ends_example = drain_headers-ends (record quiet { incoming = with_crlf (65 ∷ []) })

TakesAtMost-exchange_example :
    TakesAtMost
      (suc max_status_line_bytes + max_informational_responses * response_bytes)
      (exchange "HEAD / HTTP/1.1\r\n\r\n")
TakesAtMost-exchange_example = TakesAtMost-exchange "HEAD / HTTP/1.1\r\n\r\n"

http_exchange_with_request-IsCoherent_example :
    let result = http_exchange_with_request 3 1000 false "HEAD / HTTP/1.1\r\n\r\n" quiet in
    IsCoherent result.status result.status_code result.status_line result.error
http_exchange_with_request-IsCoherent_example =
    http_exchange_with_request-IsCoherent 3 1000 false "HEAD / HTTP/1.1\r\n\r\n" quiet

abbrev early_hints : Response
early_hints = record {
  line = bytes "HTTP/1.1 103 Early Hints";
  answer = ("HTTP/1.1 103 Early Hints", 103);
  headers = bytes "A: b" ∷ [];
}

abbrev not_found : Response
not_found = record {
  line = bytes "HTTP/1.1 404 Not Found";
  answer = ("HTTP/1.1 404 Not Found", 404);
  headers = [];
}

early_hints-IsSent : IsSent early_hints
unfolding parse_http_status_line parse_status_text from_utf8
early_hints-IsSent = record {
  no_feed = All-of_not_any (λ b. b == 10) early_hints.line refl;
  fits = omega arith;
  parsed = refl;
  headers_fit =
      (((((refl, (refl, (refl, (refl, tt)))), omega arith, omega arith), tt), omega arith));
}

not_found-IsSent : IsSent not_found
unfolding parse_http_status_line parse_status_text from_utf8
not_found-IsSent = record {
  no_feed = All-of_not_any (λ b. b == 10) not_found.line refl;
  fits = omega arith;
  parsed = refl;
  headers_fit = (tt, omega arith);
}

http_exchange_with_request-sent_example :
    http_exchange_with_request 3 1000 false "HEAD / HTTP/1.1\r\n\r\n"
      (record quiet { incoming = sent (early_hints ∷ []) not_found [] })
    ≡ answered 3 ("HTTP/1.1 404 Not Found", 404)
http_exchange_with_request-sent_example =
    http_exchange_with_request-sent 3 1000 "HEAD / HTTP/1.1\r\n\r\n" quiet (early_hints ∷ [])
      not_found [] refl (omega arith) ((early_hints-IsSent, refl), tt) not_found-IsSent refl

abbrev result_of : Status → SocketAddr → ℕ → TcpResult
result_of status address duration_ms = record {
  status = status;
  address = address;
  family = AddressFamily.ipv4;
  duration_ms = duration_ms;
  error_kind = none;
  error = none;
}

abbrev results : List TcpResult
results =
    result_of Status.pass first_v4 9
    ∷ result_of Status.fail first_v4 1
    ∷ result_of Status.pass second_v4 4
    ∷ []

abbrev run : Run
run = record {
  connect_ms = 2;
  handshake = Handshake.expired;
  handshake_ms = 0;
  http_ms = 3;
  http_expired = false;
}

-- The second address answers, the first does not.
abbrev pub outside : SocketAddr → Run × Opening
outside address = (
  run,
  if addr_eq address first_v4
      then Opening.expired
      else Opening.opened (record quiet { incoming = sent [] not_found [] }),
)

fastest_first :
    candidates results ≡ result_of Status.pass second_v4 4 ∷ result_of Status.pass first_v4 9 ∷ []
unfolding candidates
fastest_first = refl

candidates-IsStableOrder_example :
    IsAscending (candidates results)
    × ((d : ℕ)
        → of_duration d (candidates results)
          ≡ of_duration d (keep (λ (r : TcpResult). is_pass r.status) results))
candidates-IsStableOrder_example = candidates-IsStableOrder results

probe-IsRun_example :
    IsRun is_answered
      (attempt_on "0.1.0" sample_target 1000 outside)
      (candidates results)
      (probe "0.1.0" sample_target results 1000 outside)
probe-IsRun_example = probe-IsRun "0.1.0" sample_target results 1000 outside refl

probe-answers_example :
    any is_answered (probe "0.1.0" sample_target results 1000 outside)
    ≡ any
        (λ r. is_answered (attempt_on "0.1.0" sample_target 1000 outside r))
        (keep (λ (r : TcpResult). is_pass r.status) results)
probe-answers_example = probe-answers "0.1.0" sample_target results 1000 outside refl

abbrev pub proxy_run : ProxyRun
proxy_run = record {
  opening = Opening.opened (record quiet {
    incoming =
        5 ∷ 0 ∷ (reply 0 (Bound.v4 (127 ∷ 0 ∷ 0 ∷ 1 ∷ [])) (0 ∷ 80 ∷ []) (sent [] not_found []));
  });
  tunnel = record { handshake = Handshake.expired; lookup = ok []; expired = false; ahead = 0 };
  opened_ms = 5;
  run = run;
}

probe_via_proxy-ArePaired_example :
    (pair : SocketAddr → Pair) × (pairs : List Pair) × (evidence : ProxyTransportEvidence)
    × (probe_via_proxy sample_readers (λ t. t) "0.1.0" sample_target socks 1000 (λ a. proxy_run)
        ≡ some (applications pairs, evidence))
    × (evidence.attempts ≡ proxy_attempts pairs)
    × IsRun is_reached pair socks.addresses pairs
    × ((address : SocketAddr)
        → (round sample_readers (λ t. t) "0.1.0" sample_target socks 1000 address proxy_run
            ≡ some (pair address))
          × ArePaired address (pair address))
unfolding netwhy.Url.host_text
probe_via_proxy-ArePaired_example =
    probe_via_proxy-ArePaired sample_readers (λ t. t) "0.1.0" sample_target socks 1000
      (λ a. proxy_run) "proxy.test" (inl refl) refl
