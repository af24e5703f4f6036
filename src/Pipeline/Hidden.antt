-- ===== src/Pipeline/Hidden.antt =====
-- What `redact_proxy_value` of src/lib.rs shows of the value of a proxy variable.
use text.Mathlib.TextLemmas.{cons-append, nil-append}
use Prim.Native.Char.{Char, code}
use Prim.Native.String.{String, char_at}
use netwhy.Prelude.{
  ℕ, ◌≡◌, refl, ap, sym, ◌∙◌, Bool, true, false, not, ◌&&◌, ◌||◌, starts_with, contains_str, ◌==◌,
  ◌<>◌, none, some, str_eq, map_option, unwrap_or, rsplit_once, to_ascii_lowercase,
}
use netwhy.Sanitize.{sanitize_report_text}
use netwhy.Pipeline.Variables.{
  scheme_split, authority_split, ends_authority, authority_of, hide_userinfo, hide_in, show_host,
  redact_proxy_value,
}

abbrev colon : Char
colon = char_at "://" 0

abbrev slash : Char
slash = char_at "://" 1

abbrev at : Char
at = char_at "@" 0

-- No character of the text passes the test.
abbrev pub lacks : (ℕ → Bool) → String → Bool
lacks p String.[] = true
lacks p (String.◌∷◌ c s) = not (p (code c)) && lacks p s

-- A text that is empty or begins with a character that ends an authority
abbrev pub is_tail : String → Bool
is_tail String.[] = true
is_tail (String.◌∷◌ c s) = ends_authority (code c)

not_and_true : (a b : Bool) → not a && b ≡ true → (a ≡ false) × (b ≡ true)
not_and_true true b h = cc
not_and_true false b h = (refl, h)

-- The marks that stand between the parts
after_scheme :
    (rest : String) → "://" <> rest ≡ String.◌∷◌ colon (String.◌∷◌ slash (String.◌∷◌ slash rest))
after_scheme rest =
    cons-append colon "//" rest
    ∙ ap (λ t. String.◌∷◌ colon t)
        (cons-append slash "/" rest
          ∙ ap (λ t. String.◌∷◌ slash t)
              (cons-append slash "" rest ∙ ap (λ t. String.◌∷◌ slash t) (nil-append rest)))

after_user : (host : String) → "@" <> host ≡ String.◌∷◌ at host
after_user host = cons-append at "" host ∙ ap (λ t. String.◌∷◌ at t) (nil-append host)

scheme_split-append :
    (scheme rest : String)
    → lacks (λ c. c == b':') scheme ≡ true
    → scheme_split (scheme <> ("://" <> rest)) ≡ some (scheme <> "://", rest)
scheme_split-append String.[] rest h = ap scheme_split (nil-append _ ∙ after_scheme rest)
scheme_split-append (String.◌∷◌ c scheme) rest h =
    let (other, later) = not_and_true (code c == b':') _ h in
    ap scheme_split (cons-append c scheme _)
    ∙ rw other (
        ap (map_option (λ (p : String × String). (String.◌∷◌ c p.0, p.1)))
          (scheme_split-append scheme rest later))
    ∙ ap (λ t. some (t, rest)) (sym (cons-append c scheme "://"))

or_false : (a b : Bool) → a || b ≡ false → (a ≡ false) × (b ≡ false)
or_false true b h = cc
or_false false b h = (refl, h)

scheme_split-none : (s : String) → contains_str "://" s ≡ false → scheme_split s ≡ none
scheme_split-none String.[] h = refl
scheme_split-none (String.◌∷◌ c s) h =
    let (other, later) = or_false (starts_with (String.◌∷◌ c s) "://") _ h in
    rw (other, scheme_split-none s later) refl

ended :
    (c : Char) (tail : String)
    → ends_authority (code c) ≡ true
    → authority_of (String.◌∷◌ c tail) ≡ ("", String.◌∷◌ c tail)
ended c tail k = rw k refl

lacks-append :
    (p : ℕ → Bool) (s t : String) → lacks p s ≡ true → lacks p t ≡ true → lacks p (s <> t) ≡ true
lacks-append p String.[] t h k = ap (lacks p) (nil-append t) ∙ k
lacks-append p (String.◌∷◌ c s) t h k =
    let (other, later) = not_and_true (p (code c)) _ h in
    ap (lacks p) (cons-append c s t) ∙ both (p (code c)) other (lacks-append p s t later k)
  where
    both : {l : Bool} (b : Bool) → b ≡ false → l ≡ true → not b && l ≡ true
    both b e f = rw (e, f) refl

authority_of-append :
    (authority tail : String)
    → lacks ends_authority authority ≡ true
    → is_tail tail ≡ true
    → authority_of (authority <> tail) ≡ (authority, tail)
authority_of-append String.[] String.[] h k = refl
authority_of-append String.[] (String.◌∷◌ c tail) h k =
    ap authority_of (nil-append (String.◌∷◌ c tail)) ∙ ended c tail k
authority_of-append (String.◌∷◌ c authority) tail h k =
    let (inside, later) = not_and_true (ends_authority (code c)) _ h in
    ap authority_of (cons-append c authority tail)
    ∙ rw inside (
        ap (λ (p : String × String). (String.◌∷◌ c p.0, p.1))
          (authority_of-append authority tail later k))

rsplit_once-none : (d : ℕ) (s : String) → lacks (λ c. c == d) s ≡ true → rsplit_once d s ≡ none
rsplit_once-none d String.[] h = refl
rsplit_once-none d (String.◌∷◌ c s) h =
    let (other, later) = not_and_true (code c == d) _ h in
    rw (rsplit_once-none d s later, other) refl

split_cons :
    (c : Char) (s user host : String)
    → rsplit_once b'@' s ≡ some (user, host)
    → rsplit_once b'@' (String.◌∷◌ c s) ≡ some (String.◌∷◌ c user, host)
split_cons c s user host h = rw (h, rsplit_once) refl

rsplit_once-append :
    (user host : String)
    → lacks (λ c. c == b'@') host ≡ true
    → rsplit_once b'@' (user <> ("@" <> host)) ≡ some (user, host)
rsplit_once-append String.[] host h =
    ap (rsplit_once b'@') (nil-append _ ∙ after_user host) ∙ rw (rsplit_once-none b'@' host h) refl
rsplit_once-append (String.◌∷◌ c user) host h =
    ap (rsplit_once b'@') (cons-append c user ("@" <> host))
    ∙ split_cons c (user <> ("@" <> host)) user host (rsplit_once-append user host h)

module _ (prefix user host tail : String) where
  -- What is shown of the part after the scheme, where it holds a login
  hide_login :
      lacks ends_authority user ≡ true
      → lacks ends_authority host ≡ true
      → lacks (λ c. c == b'@') host ≡ true
      → is_tail tail ≡ true
      → hide_in (prefix, (user <> ("@" <> host)) <> tail)
        ≡ prefix <> ("<redacted>@" <> (host <> tail))
  hide_login u h a t =
      let authority : authority_of ((user <> ("@" <> host)) <> tail)
          ≡ (user <> ("@" <> host), tail) =
        authority_of-append (user <> ("@" <> host)) tail
          (lacks-append ends_authority user ("@" <> host) u
            (lacks-append ends_authority "@" host refl h))
          t in
      ap (hide_userinfo prefix) authority
      ∙ ap (show_host prefix (user <> ("@" <> host)) tail) (rsplit_once-append user host a)

-- Of a value that holds a login the report shows the scheme, where there is one, the host and what follows
-- it, and that there was a login: for a login without a slash, a question mark or a hash, and a host without
-- these and without an at sign, in a variable that is not `no_proxy`; after a scheme without a colon and
-- `://`, or in a value that has no `://`.
pub redact_proxy_value-hides :
    (name user host tail : String)
    → str_eq (to_ascii_lowercase name) "no_proxy" ≡ false
    → lacks ends_authority user ≡ true
    → lacks ends_authority host ≡ true
    → lacks (λ c. c == b'@') host ≡ true
    → is_tail tail ≡ true
    → ((scheme : String)
        → lacks (λ c. c == b':') scheme ≡ true
        → redact_proxy_value name (scheme <> ("://" <> ((user <> ("@" <> host)) <> tail)))
          ≡ sanitize_report_text ((scheme <> "://") <> ("<redacted>@" <> (host <> tail))))
      × (contains_str "://" ((user <> ("@" <> host)) <> tail) ≡ false
          → redact_proxy_value name ((user <> ("@" <> host)) <> tail)
            ≡ sanitize_report_text ("<redacted>@" <> (host <> tail)))
unfolding redact_proxy_value
redact_proxy_value-hides name user host tail n u h a t =
    let rest = (user <> ("@" <> host)) <> tail in
    (
      (λ scheme s.
          let value = scheme <> ("://" <> rest) in
          let split : authority_split value ≡ (scheme <> "://", rest) =
            ap (unwrap_or ("", value)) (scheme_split-append scheme rest s) in
          rw n (
            ap sanitize_report_text
              (ap hide_in split ∙ hide_login (scheme <> "://") user host tail u h a t))),
      (λ k.
          let split : authority_split rest ≡ ("", rest) =
            ap (unwrap_or ("", rest)) (scheme_split-none rest k) in
          rw n (
            ap sanitize_report_text (
              ap hide_in split
              ∙ hide_login "" user host tail u h a t
              ∙ nil-append ("<redacted>@" <> (host <> tail))))),
    )
