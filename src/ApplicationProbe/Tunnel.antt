-- ===== src/ApplicationProbe/Tunnel.antt =====
-- `open_proxy_stream` of src/probe/application.rs: a connection to the proxy, with TLS if the proxy asks for
-- it, and the tunnel to the target.
use netwhy.Prelude.{
  ℕ, Bool, not, ◌&&◌, ◌||◌, String, ◌<>◌, Option, none, some, List, if◌then◌else◌, str_eq,
  map_option, ◌≡◌, refl, ap, Bool-cases, inl, inr,
}
use netwhy.Net.{SocketAddr}
use netwhy.Tcp.{ErrorKind}
use netwhy.Target.{Target}
use netwhy.Proxy.{SelectedProxy, proxy_host}
use netwhy.Proxy.Base64.{basic_authorization}
use netwhy.ApplicationProbe.Stream.{
  Stream, IoResult, ok, failed, Io, ◌>>=◌, ◌>>◌, return, fail, error,
}
use netwhy.ApplicationProbe.Http.{http_connect}
use netwhy.ApplicationProbe.Socks.{socks5_connect}
use netwhy.ApplicationProbe.Attempt.{Opening, Handshake, is_http_proxy}

-- What the outside gives a tunnel: the handshake with a proxy that speaks TLS, the lookup of the target for
-- SOCKS5, whether the negotiation runs out of time, and what a reader takes ahead of its use.
pub record TunnelRun : Type 0 where
  pub handshake : Handshake
  pub lookup : IoResult (List SocketAddr)
  pub expired : Bool
  pub ahead : ℕ

-- The connection to the proxy, after TLS if its scheme is `https`.
abbrev secured : Handshake → Stream → IoResult Stream
secured (Handshake.agreed session inner) stream = IoResult.ok inner
secured (Handshake.bad_name e) stream =
    error ErrorKind.any_other ("invalid proxy TLS server name: " <> e)
secured (Handshake.failed e) stream =
    error ErrorKind.any_other ("proxy TLS handshake failed: " <> e)
secured Handshake.expired stream = error ErrorKind.timed_out "proxy TLS handshake timed out"

-- `none` is the panic of `SelectedProxy::host`, whose name TLS asks for.
abbrev pub connected : SelectedProxy → TunnelRun → Opening → Option (IoResult Stream)
connected proxy run (Opening.opened stream) =
    if str_eq proxy.url.scheme "https"
    then map_option (λ host. secured run.handshake stream) (proxy_host proxy)
    else some (IoResult.ok stream)
connected proxy run (Opening.refused e) = some (IoResult.failed e)
connected proxy run Opening.expired =
    some (error ErrorKind.timed_out "proxy TCP connection timed out")

abbrev is_socks : SelectedProxy → Bool
is_socks proxy = str_eq proxy.url.scheme "socks5" || str_eq proxy.url.scheme "socks5h"

-- What the scheme of the proxy asks for on its connection; the result is the status of a `CONNECT`.
unfoldable pub negotiate :
    (String → String) → String → SelectedProxy → Target → TunnelRun → Io (Option ℕ)
unfolding http_connect socks5_connect basic_authorization
negotiate decode version proxy target run =
    if is_http_proxy proxy && not (str_eq target.scheme "http")
    then http_connect version target (basic_authorization decode proxy.url) run.expired run.ahead
      >>= (λ status. return (some status))
    else if is_socks proxy
    then socks5_connect decode proxy target run.lookup run.expired >> return none
    else if is_http_proxy proxy
    then return none
    else fail ErrorKind.any_other "unsupported proxy scheme"

-- The open connection with the status of its tunnel
abbrev with_stream : IoResult (Option ℕ) × Stream → IoResult (Stream × Option ℕ)
with_stream (IoResult.ok status, stream) = IoResult.ok (stream, status)
with_stream (IoResult.failed e, stream) = IoResult.failed e

-- The rest of `open_proxy_stream`, on the connection
abbrev tunnelled :
    (String → String)
    → String
    → SelectedProxy
    → Target
    → TunnelRun
    → IoResult Stream
    → IoResult (Stream × Option ℕ)
tunnelled decode version proxy target run (ok stream) =
    with_stream (negotiate decode version proxy target run stream)
tunnelled decode version proxy target run (failed e) = IoResult.failed e

unfoldable pub open_proxy_stream :
    (String → String)
    → String
    → SelectedProxy
    → Target
    → TunnelRun
    → Opening
    → Option (IoResult (Stream × Option ℕ))
unfolding negotiate
open_proxy_stream decode version proxy target run opening =
    map_option (tunnelled decode version proxy target run) (connected proxy run opening)

module _ (proxy : SelectedProxy) (host : String) (there : proxy_host proxy ≡ some host) where
  connected-some :
      (run : TunnelRun) (opening : Opening)
      → (r : IoResult Stream) × (connected proxy run opening ≡ some r)
  connected-some run (Opening.opened stream) = elim (Bool-cases (str_eq proxy.url.scheme "https")) [
    | inl e ↦ rw (e, there) (_, refl)
    | inr e ↦ rw e (_, refl)
  ]
  connected-some run (Opening.refused e) = (_, refl)
  connected-some run Opening.expired = (_, refl)

  -- A proxy with a host is opened, or fails to be, without a panic.
  pub open_proxy_stream-some :
      (decode : String → String) (version : String) (target : Target) (run : TunnelRun)
      (opening : Opening)
      → (r : IoResult (Stream × Option ℕ)) × (open_proxy_stream decode version proxy target run
            opening
          ≡ some r)
  unfolding open_proxy_stream
  open_proxy_stream-some decode version target run opening =
      let (r, e) = connected-some run opening in
      (
        tunnelled decode version proxy target run r,
        ap (map_option (tunnelled decode version proxy target run)) e,
      )
