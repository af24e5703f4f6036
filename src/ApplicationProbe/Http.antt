-- ===== src/ApplicationProbe/Http.antt =====
-- The HTTP exchanges of src/probe/application.rs: `HEAD` to the target or through a forwarding proxy, and
-- `CONNECT`. The version of the package is an argument, as are the times.
pub mod Bounded
pub mod Answered
pub mod Coherent
use netwhy.Prelude.{
  ℕ, zero, suc, ◌+◌, Bool, true, false, not, ◌&&◌, ◌==◌, leb, ltb, String, ◌<>◌, Option, none, some,
  List, [], ◌∷◌, drop, if◌then◌else◌, bytes, decimal,
}
use netwhy.Model.{Status, HttpResult}
use netwhy.Sanitize.{sanitize_report_text}
use netwhy.Tcp.{ErrorKind}
use netwhy.Url.{Readers}
use netwhy.Target.{Target, request_path, host_header, connection_authority, proxy_request_uri}
use netwhy.ApplicationProbe.Stream.{
  IoError, Stream, IoResult, ok, failed, Io, ◌>>=◌, ◌>>◌, return, fail, write_all,
}
use netwhy.ApplicationProbe.Socks.{within}
use netwhy.ApplicationProbe.Lines.{
  max_status_line_bytes, read_crlf_line, parse_http_status_line, drain_headers,
}

abbrev pub max_informational_responses : ℕ
max_informational_responses = 8

abbrev pub is_informational : ℕ → Bool
is_informational status = leb 100 status && ltb status 200 && not (status == 101)

abbrev status_line : Io (String × ℕ)
status_line s =
    (read_crlf_line max_status_line_bytes >>= (λ line t. (parse_http_status_line line, t))) s

-- A response that ends the loop, and one that the loop goes on after
abbrev pub last_response : String × ℕ → Io (String × ℕ)
last_response response =
    if is_informational response.1
    then fail ErrorKind.any_other "too many informational HTTP responses"
    else return response

abbrev pub go_on : Io (String × ℕ) → String × ℕ → Io (String × ℕ)
go_on later response =
    if is_informational response.1 then drain_headers >>= (λ _. later) else return response

-- The rounds of the loop, with the number of informational responses that may still come
unfoldable pub responses : ℕ → Io (String × ℕ)
unfolding read_crlf_line parse_http_status_line drain_headers
responses zero = status_line >>= last_response
responses (suc n) = status_line >>= go_on (responses n)

unfoldable pub exchange : String → Io (String × ℕ)
unfolding responses write_all
exchange request = write_all (bytes request) >> responses max_informational_responses

-- The report of an exchange; `none` is one whose time was over.
unfoldable pub http_result : ℕ → ℕ → Option (IoResult (String × ℕ)) → HttpResult
unfolding sanitize_report_text
http_result elapsed timeout_ms (some (ok (line, code))) = record {
  status = if leb 400 code then Status.warn else Status.pass;
  duration_ms = elapsed;
  status_code = some code;
  status_line = some line;
  error = none;
}
http_result elapsed timeout_ms (some (failed e)) = record {
  status = Status.fail;
  duration_ms = elapsed;
  status_code = none;
  status_line = none;
  error = some (sanitize_report_text e.text);
}
http_result elapsed timeout_ms none = record {
  status = Status.fail;
  duration_ms = elapsed;
  status_code = none;
  status_line = none;
  error = some ("HTTP response timed out after " <> (decimal timeout_ms <> " ms"));
}

unfoldable pub http_exchange_with_request : ℕ → ℕ → Bool → String → Stream → HttpResult
unfolding exchange http_result
http_exchange_with_request elapsed timeout_ms expired request s =
    http_result elapsed timeout_ms (if expired then none else some (exchange request s).0)

abbrev authorization_header : Option String → String
authorization_header none = ""
authorization_header (some value) = "Proxy-Authorization: " <> (value <> "\r\n")

abbrev head_request : String → String → String → String → String
head_request version uri host authorization =
    "HEAD "
    <> (uri
        <> (" HTTP/1.1\r\nHost: "
            <> (host
                <> ("\r\nUser-Agent: netwhy/"
                    <> (version
                        <> ("\r\nAccept: */*\r\n"
                            <> (authorization <> "Connection: close\r\n\r\n")))))))

unfoldable pub http_exchange : String → Target → ℕ → ℕ → Bool → Stream → HttpResult
unfolding http_exchange_with_request request_path host_header
http_exchange version target elapsed timeout_ms expired s =
    http_exchange_with_request elapsed timeout_ms expired
      (head_request version (request_path target) (host_header target) "") s

unfoldable pub http_exchange_proxy :
    Readers → String → Target → Option String → ℕ → ℕ → Bool → Stream → HttpResult
unfolding http_exchange_with_request proxy_request_uri host_header
http_exchange_proxy readers version target authorization elapsed timeout_ms expired s =
    http_exchange_with_request elapsed timeout_ms expired
      (head_request version (proxy_request_uri readers target) (host_header target)
        (authorization_header authorization))
      s

abbrev connect_text : String → Target → Option String → String
connect_text version target authorization =
    "CONNECT "
    <> (connection_authority target
        <> (" HTTP/1.1\r\nHost: "
            <> (connection_authority target
                <> ("\r\nUser-Agent: netwhy/"
                    <> (version
                        <> ("\r\n"
                            <> (authorization_header authorization
                                <> "Connection: keep-alive\r\n\r\n")))))))

-- `HttpConnectStatusError`, as `to_string` and `downcast_ref` see it
abbrev pub connect_status_error {ℓ} : {A : Type ℓ} → ℕ → IoResult A
connect_status_error status = IoResult.failed (record {
  kind = ErrorKind.connection_refused;
  text = "proxy CONNECT returned HTTP " <> decimal status;
  connect_status = some status;
})

abbrev tunnel_outcome : ℕ → IoResult ℕ
tunnel_outcome status =
    if leb 200 status && ltb status 300 then IoResult.ok status else connect_status_error status

-- What a reader had taken from the connection ahead of its use is lost with it.
abbrev give_up : ℕ → Stream → Stream
give_up ahead s = record s { incoming = drop ahead s.incoming }

unfoldable pub http_connect : String → Target → Option String → Bool → ℕ → Io ℕ
unfolding write_all read_crlf_line parse_http_status_line drain_headers connection_authority
http_connect version target authorization expired ahead =
    within expired "proxy CONNECT timed out" do
      write_all (bytes (connect_text version target authorization))
      response ← status_line
      drain_headers
      (λ s. (tunnel_outcome response.1, give_up ahead s))
