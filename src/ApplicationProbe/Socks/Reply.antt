-- ===== src/ApplicationProbe/Socks/Reply.antt =====
-- What the SOCKS5 client of src/probe/application.rs reads and writes.
use netwhy.Prelude.{
  ℕ, ◌+◌, ◌≤◌, ◌<◌, ◌≡◌, refl, sym, ap, true, false, ltb, Option, none, some, String, List, [], ◌∷◌,
  ◌++◌, length, take, drop, arith, bytes, leb, length-append, take-append, drop-append,
}
use netwhy.ApplicationProbe.Stream.{
  IoError, Stream, IoResult, ok, failed, Io, ◌>>=◌, read_exact, write_all,
}
use netwhy.ApplicationProbe.Socks.{
  skip_bytes, read_socks5_response, socks5_authenticate, is_pair, method_of, greeted,
  send_credentials,
}

-- `read_exact` of what is there
pub read_exact-append :
    (s : Stream) (n : ℕ) (xs ys : List ℕ)
    → length xs ≡ n
    → read_exact n (record s { incoming = xs ++ ys }) ≡ (ok xs, record s { incoming = ys })
unfolding read_exact
read_exact-append s n xs ys h =
    let enough : ltb (length (xs ++ ys)) n ≡ false = ground (arith, length-append xs ys) in
    let taken : take n (xs ++ ys) ≡ xs = rw (sym h) (take-append xs ys) in
    let dropped : drop n (xs ++ ys) ≡ ys = rw (sym h) (drop-append xs ys) in
    rw (enough, taken, dropped) refl

-- A step that failed, after so much was written
abbrev pub IsRefused : List ℕ → IoResult (Unit {0}) × Stream → Type 0
IsRefused written (ok a, s) = ⊥
IsRefused written (failed e, s) = s.written ≡ written

-- The address that a reply is bound to, as RFC 1928 writes it
pub data Bound : Type 0 where
  v4 v6 name : List ℕ → Bound

abbrev pub IsBound : Bound → Type 0
IsBound (Bound.v4 bs) = length bs ≡ 4
IsBound (Bound.v6 bs) = length bs ≡ 16
IsBound (Bound.name bs) = length bs < 256

abbrev pub bound_bytes : Bound → List ℕ
bound_bytes (Bound.v4 bs) = 0x01 ∷ bs
bound_bytes (Bound.v6 bs) = 0x04 ∷ bs
bound_bytes (Bound.name bs) = 0x03 ∷ length bs ∷ bs

-- A reply of success, in front of the bytes of the connection that it opened.
abbrev pub reply : ℕ → Bound → List ℕ → List ℕ → List ℕ
reply reserved bound port rest = 0x05 ∷ 0x00 ∷ reserved ∷ (bound_bytes bound ++ (port ++ rest))

append_assoc : (xs ys zs : List ℕ) → xs ++ (ys ++ zs) ≡ (xs ++ ys) ++ zs
append_assoc [] ys zs = refl
append_assoc (x ∷ xs) ys zs = ap (λ t. x ∷ t) (append_assoc xs ys zs)

-- A part of so many bytes and two more are taken.
skip-append :
    (s : Stream) (n : ℕ) (xs ys rest : List ℕ)
    → length xs ≡ n
    → length ys ≡ 2
    → skip_bytes (n + 2) (record s { incoming = xs ++ (ys ++ rest) })
      ≡ (ok tt, record s { incoming = rest })
skip-append s n xs ys rest h k =
    rw
      (
        append_assoc xs ys rest,
        read_exact-append s (n + 2) (xs ++ ys) rest (omega (arith, length-append xs ys)),
      )
      refl

-- A reply of success is taken whole, whatever address it is bound to, and what follows it stays for the
-- protocol of the target.
pub read_socks5_response-reply :
    (s : Stream) (reserved : ℕ) (bound : Bound) (port rest : List ℕ)
    → IsBound bound
    → length port ≡ 2
    → read_socks5_response (record s { incoming = reply reserved bound port rest })
      ≡ (ok tt, record s { incoming = rest })
unfolding read_socks5_response
read_socks5_response-reply s reserved (Bound.v4 bs) port rest h k =
    rw (read_exact-append s 4 (0x05 ∷ 0x00 ∷ reserved ∷ 0x01 ∷ []) (bs ++ (port ++ rest)) refl)
      (skip-append s 4 bs port rest h k)
read_socks5_response-reply s reserved (Bound.v6 bs) port rest h k =
    rw (read_exact-append s 4 (0x05 ∷ 0x00 ∷ reserved ∷ 0x04 ∷ []) (bs ++ (port ++ rest)) refl)
      (skip-append s 16 bs port rest h k)
read_socks5_response-reply s reserved (Bound.name bs) port rest h k =
    rw
      (
        read_exact-append s 4 (0x05 ∷ 0x00 ∷ reserved ∷ 0x03 ∷ [])
            (length bs ∷ (bs ++ (port ++ rest))) refl,
        read_exact-append s 1 (length bs ∷ []) (bs ++ (port ++ rest)) refl,
      )
      (skip-append s (0 + length bs) bs port rest (omega arith) k)

-- A connection that takes what is written
abbrev pub writable : List ℕ → List ℕ → IoError → Option IoError → Stream
writable incoming written early_eof reset = record {
  incoming = incoming;
  written = written;
  early_eof = early_eof;
  reset = reset;
  refuses = none;
}

abbrev pub greeting : Option (String × String) → List ℕ
greeting login = 0x05 ∷ 0x01 ∷ method_of login ∷ []

short-IsRefused :
    (sent : List ℕ) (early_eof : IoError) (reset : Option IoError) (incoming : List ℕ)
    (k : List ℕ → Io (Unit {0}))
    → ltb (length incoming) 2 ≡ true
    → IsRefused sent ((read_exact 2 >>= k) (writable incoming sent early_eof reset))
unfolding read_exact
short-IsRefused sent early_eof none incoming k h = rw h refl
short-IsRefused sent early_eof (some e) incoming k h = rw h refl

-- If the first two bytes of the proxy's answer are not the version and the method that was offered, or if it
-- sends fewer, the client fails and has written its greeting alone: a login is not sent.
pub socks5_authenticate-IsRefused :
    (login : Option (String × String)) (incoming written : List ℕ) (early_eof : IoError)
    (reset : Option IoError)
    → is_pair (take 2 incoming) 0x05 (method_of login) ≡ false
    → IsRefused
        (written ++ greeting login)
        (socks5_authenticate login (writable incoming written early_eof reset))
unfolding socks5_authenticate write_all
socks5_authenticate-IsRefused login [] written early_eof reset h =
    short-IsRefused (written ++ greeting login) early_eof reset [] (greeted login) refl
socks5_authenticate-IsRefused login (a ∷ []) written early_eof reset h =
    short-IsRefused (written ++ greeting login) early_eof reset (a ∷ []) (greeted login) refl
socks5_authenticate-IsRefused login (a ∷ b ∷ incoming) written early_eof reset h =
    rw
      (read_exact-append (writable [] (written ++ greeting login) early_eof reset) 2 (a ∷ b ∷ [])
        incoming refl)
      (rw h refl)

abbrev pub login_message : String → String → List ℕ
login_message username password =
    0x01 ∷ length (bytes username) ∷ (bytes username ++ length (bytes password) ∷ bytes password)

-- A proxy that asks for a login of at most 255 bytes each and accepts it gets the greeting and the login, and
-- loses nothing of what it sends afterwards.
pub socks5_authenticate-accepted :
    (username password : String) (rest written : List ℕ) (early_eof : IoError)
    (reset : Option IoError)
    → length (bytes username) ≤ 255
    → length (bytes password) ≤ 255
    → socks5_authenticate
        (some (username, password))
        (writable (0x05 ∷ 0x02 ∷ 0x01 ∷ 0x00 ∷ rest) written early_eof reset)
      ≡ (
        ok tt,
        writable rest
            ((written ++ greeting (some (username, password))) ++ login_message username password)
            early_eof
            reset,
      )
unfolding socks5_authenticate send_credentials write_all
socks5_authenticate-accepted username password rest written early_eof reset h k =
    let short_name : leb (length (bytes username)) 255 ≡ true = ground arith in
    let short_word : leb (length (bytes password)) 255 ≡ true = ground arith in
    let sent = written ++ greeting (some (username, password)) in
    rw
      (read_exact-append (writable [] sent early_eof reset) 2 (0x05 ∷ 0x02 ∷ [])
        (0x01 ∷ 0x00 ∷ rest) refl)
      (rw (short_name, short_word)
        (rw
          (read_exact-append (writable [] (sent ++ login_message username password) early_eof reset)
            2 (0x01 ∷ 0x00 ∷ []) rest refl)
          refl))
