-- ===== src/Target/Parsed.antt =====
-- What `Target::parse` of src/target.rs accepts.
use mathlib.Core.Path.{subst}
use netwhy.Prelude.{
  ℕ, ◌<◌, ◌≡◌, ◌≢◌, ◌↔◌, ◌⊎◌, inl, inr, refl, ap, sym, true, false, ◌==◌, String, ◌<>◌, Option,
  none, some, is_some, map_option, trim, is_blank, contains_str, arith, Bool-cases, Option-cases,
  str_eq, eq_iff, is_some_and,
}
use netwhy.Prelude.Results.{Result, on_ok, context, ok-injective}
use netwhy.Net.{SocketAddr, port, socket}
use netwhy.Url.{Host, Url, port_or_known_default, default_port, Readers, AreReaders}
use netwhy.Target.{
  Target, is_target_scheme, is_http, literal_ip, has_userinfo, build_target, assemble, from_url,
  name_or_endpoint, of_socket, has_port, of_name, of_ip, of_endpoint, parse_trimmed, parse_target,
}

-- A target that the program can probe: a known scheme, a port of 16 bits that is not 0, a URL exactly
-- where there is HTTP, without credentials, and a literal address only with that port.
pub record IsTarget (t : Target) : Type 0 where
  pub scheme : (t.scheme ≡ "http") ⊎ ((t.scheme ≡ "https") ⊎ (t.scheme ≡ "tcp"))
  pub positive : 0 < t.port
  pub bounded : t.port < 65536
  pub url : is_some t.url ≡ is_http t.scheme
  pub credentials : is_some_and has_userinfo t.url ≡ false
  pub literal : (a : SocketAddr) → t.literal_address ≡ some a → port a ≡ t.port

scheme_cases :
    (s : String) → is_target_scheme s ≡ true → (s ≡ "http") ⊎ ((s ≡ "https") ⊎ (s ≡ "tcp"))
scheme_cases s h = ground (arith, eq_iff s "http", eq_iff s "https", eq_iff s "tcp")

port_bounded :
    (url : Url) (p : ℕ)
    → ((q : ℕ) → url.port ≡ some q → q < 65536)
    → port_or_known_default url ≡ some p
    → p < 65536
port_bounded url p h e = elim (Option-cases url.port) [
  | inl n ↦ known url.scheme (rw n at e)
  | inr (q, n) ↦
      let same : some q ≡ some p = rw n at e in
      rw (sym (mathlib.Core.Option.some-injective _ _ same)) (h q n)
]
  where
    known : (s : String) → default_port s ≡ some p → p < 65536
    known s k = elim (Bool-cases (str_eq s "http")) [
      | inl a ↦ let k' : some 80 ≡ some p = rw a at k in ground arith
      | inr a ↦ elim (Bool-cases (str_eq s "https")) [
        | inl b ↦ let k' : some 443 ≡ some p = rw (a, b) at k in ground arith
        | inr b ↦ let k' : none ≡ some p = rw (a, b) at k in cc
      ]
    ]

port_of_literal :
    (host : Host) (p : ℕ) (a : SocketAddr)
    → map_option (λ i. socket i p) (literal_ip host) ≡ some a
    → port a ≡ p
port_of_literal (Host.domain name) p a e = cc
port_of_literal (Host.ipv4 i) p a e = sym (ap port (mathlib.Core.Option.some-injective _ _ e))
port_of_literal (Host.ipv6 i) p a e = sym (ap port (mathlib.Core.Option.some-injective _ _ e))

build_target-inv :
    (original : String) (url : Url) (host : Host) (p : ℕ) (t : Target)
    → is_target_scheme url.scheme ≡ true
    → has_userinfo url ≡ false
    → p < 65536
    → build_target original url host p ≡ Result.ok t
    → IsTarget t × (t.original ≡ original)
build_target-inv original url host p t s u b e = elim (Bool-cases (p == 0)) [
  | inl z ↦
      let k : Result.err "target port must be between 1 and 65535" ≡ Result.ok t = rw z at e in cc
  | inr z ↦
      subst (λ t. IsTarget t × (t.original ≡ original)) (ok-injective _ _ (rw z at e))
        (
          record {
            scheme = scheme_cases url.scheme s;
            positive = ground arith;
            bounded = b;
            url = ground arith;
            credentials = ground arith;
            literal = port_of_literal host p;
          },
          refl,
        )
]

-- What `from_url` accepts.
abbrev pub IsAccepted : Url → Type 0
IsAccepted url =
    (is_target_scheme url.scheme ≡ true)
    × (has_userinfo url ≡ false)
    × (url.host ≢ none)
    × ((p : ℕ) × (port_or_known_default url ≡ some p) × (p ≢ 0))

err-ne-ok : (error : String) (t : Target) → Result.err error ≢ Result.ok t
err-ne-ok error t k = cc

module _ (original : String) (url : Url) (t : Target) where
  assemble-inv :
      (host : Option Host) (port : Option ℕ)
      → is_target_scheme url.scheme ≡ true
      → has_userinfo url ≡ false
      → ((p : ℕ) → port ≡ some p → p < 65536)
      → assemble original url host port ≡ Result.ok t
      → IsTarget t × (t.original ≡ original)
  assemble-inv none port s u h e = absurd (err-ne-ok _ t e)
  assemble-inv (some host) none s u h e = absurd (err-ne-ok _ t e)
  assemble-inv (some host) (some p) s u h e =
      build_target-inv original url host p t s u (h p refl) e

  assemble_found :
      (host : Option Host) (port : Option ℕ)
      → assemble original url host port ≡ Result.ok t
      → (host ≢ none) × ((p : ℕ) × (port ≡ some p) × (p ≢ 0))
  assemble_found none port e = absurd (err-ne-ok _ t e)
  assemble_found (some host) none e = absurd (err-ne-ok _ t e)
  assemble_found (some host) (some p) e = elim (Bool-cases (p == 0)) [
    | inl z ↦ absurd (err-ne-ok _ t (rw z at e))
    | inr z ↦ ((λ k. cc), (p, refl, (λ k. ground arith)))
  ]

  -- The tests of `from_url` passed.
  from_url_passes :
      from_url original url ≡ Result.ok t
      → (is_target_scheme url.scheme ≡ true)
        × (has_userinfo url ≡ false)
        × (assemble original url url.host (port_or_known_default url) ≡ Result.ok t)
  unfolding from_url
  from_url_passes e = elim (Bool-cases (is_target_scheme url.scheme)) [
    | inr s ↦ absurd (err-ne-ok _ t (rw s at e))
    | inl s ↦ elim (Bool-cases (has_userinfo url)) [
      | inl u ↦ absurd (err-ne-ok _ t (rw (s, u) at e))
      | inr u ↦ (s, u, rw (s, u) at e)
    ]
  ]

  from_url-inv :
      ((q : ℕ) → url.port ≡ some q → q < 65536)
      → from_url original url ≡ Result.ok t
      → IsTarget t × (t.original ≡ original)
  from_url-inv h e =
      let (s, u, a) = from_url_passes e in
      assemble-inv url.host (port_or_known_default url) s u (λ p k. port_bounded url p h k) a

made :
    (original : String) (url : Url) (host : Option Host) (port : Option ℕ)
    → host ≢ none
    → ((p : ℕ) × (port ≡ some p) × (p ≢ 0))
    → (t : Target) × (assemble original url host port ≡ Result.ok t)
made original url none port n p = absurd (n refl)
made original url (some host) none n (p, k, z) = cc
made original url (some host) (some q) n (p, k, z) =
    let z' : (q == 0) ≡ false = ground (arith, mathlib.Core.Option.some-injective _ _ k) in
    rw z' (_, refl)

-- `from_url` makes a target of exactly the URLs with a known scheme, without credentials, with a host,
-- and with a port that is not 0.
pub from_url-IsAccepted :
    (original : String) (url : Url)
    → ((t : Target) × (from_url original url ≡ Result.ok t)) ↔ IsAccepted url
from_url-IsAccepted original url = (accepted, rejected)
  where
    accepted : ((t : Target) × (from_url original url ≡ Result.ok t)) → IsAccepted url
    accepted (t, e) =
        let (s, u, a) = from_url_passes original url t e in
        let (n, p) = assemble_found original url t url.host (port_or_known_default url) a in
        (s, u, n, p)

    rejected : IsAccepted url → (t : Target) × (from_url original url ≡ Result.ok t)
    rejected (s, u, n, p) =
        let (t, e) = made original url url.host (port_or_known_default url) n p in
        (t, unfold from_url in rw (s, u) e)

module _ (readers : Readers) (law : AreReaders readers) (t : Target) where
  abbrev Made : String → Type 0
  Made original = IsTarget t × (t.original ≡ original)

  read_and_Made :
      (original text : String) (read : Result Url)
      → readers.read_url text ≡ read
      → on_ok read (from_url original) ≡ Result.ok t
      → Made original
  read_and_Made original text (Result.ok url) r e =
      from_url-inv original url t (λ q k. law.url_port text url q r k) e
  read_and_Made original text (Result.err error) r e = absurd (err-ne-ok _ t e)

  read_with_context :
      (original text error : String) (read : Result Url)
      → readers.read_url text ≡ read
      → on_ok (context error read) (from_url original) ≡ Result.ok t
      → Made original
  read_with_context original text error (Result.ok url) r e =
      from_url-inv original url t (λ q k. law.url_port text url q r k) e
  read_with_context original text error (Result.err cause) r e = absurd (err-ne-ok _ t e)

  of_socket-inv :
      (input : String) (a : SocketAddr)
      → port a < 65536
      → of_socket input a ≡ Result.ok t
      → Made input
  of_socket-inv input a b e = elim (Bool-cases (port a == 0)) [
    | inl z ↦ absurd (err-ne-ok _ t (rw z at e))
    | inr z ↦
        subst (λ t. IsTarget t × (t.original ≡ input)) (ok-injective _ _ (rw z at e))
          (
            record {
              scheme = inr (inr refl);
              positive = ground arith;
              bounded = b;
              url = refl;
              credentials = refl;
              literal = λ c k. sym (ap port (mathlib.Core.Option.some-injective _ _ k));
            },
            refl,
          )
  ]

  of_name-inv : (input : String) → of_name readers input ≡ Result.ok t → Made input
  unfolding of_name
  of_name-inv input e = by_port (readers.read_url ("tcp://" <> input)) refl e
    where
      by_port :
          (read : Result Url)
          → readers.read_url ("tcp://" <> input) ≡ read
          → name_or_endpoint readers input (has_port read) ≡ Result.ok t
          → Made input
      by_port (Result.err error) r k = read_with_context input _ _ _ refl k
      by_port (Result.ok url) r k = elim (Bool-cases (is_some url.port)) [
        | inl p ↦ from_url-inv input url t (λ q m. law.url_port _ url q r m) (rw p at k)
        | inr p ↦ read_with_context input _ _ _ refl (rw p at k)
      ]

  of_endpoint-inv : (input : String) → of_endpoint readers input ≡ Result.ok t → Made input
  unfolding of_endpoint of_ip
  of_endpoint-inv input e = elim (Option-cases (readers.read_socket input)) [
    | inr (a, k) ↦ of_socket-inv input a (law.socket_port input a k) (rw (k, of_endpoint) at e)
    | inl k ↦ elim (Option-cases (readers.read_ip input)) [
      | inl m ↦ of_name-inv input (rw (k, m, of_endpoint) at e)
      | inr (address, m) ↦ read_and_Made input _ _ refl (rw (k, m, of_endpoint) at e)
    ]
  ]

  -- A target that `parse` accepts is one that the program can probe, under the trimmed input as its
  -- original text.
  pub parse_target-IsTarget :
      (input : String)
      → parse_target readers input ≡ Result.ok t
      → IsTarget t × (t.original ≡ trim input)
  unfolding parse_target parse_trimmed
  parse_target-IsTarget input e = elim (Bool-cases (is_blank (trim input))) [
    | inl b ↦ absurd (err-ne-ok _ t (rw b at e))
    | inr b ↦ elim (Bool-cases (contains_str "://" (trim input))) [
      | inl c ↦ read_with_context (trim input) _ _ _ refl (rw (b, c) at e)
      | inr c ↦ of_endpoint-inv (trim input) (rw (b, c) at e)
    ]
  ]
