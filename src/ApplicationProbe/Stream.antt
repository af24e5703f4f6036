-- ===== src/ApplicationProbe/Stream.antt =====
-- A connection as src/probe/application.rs uses it: the bytes that are still to come, those that were
-- written, and the errors that its ends give. A step is a function of the connection.
use netwhy.Prelude.{
  ℕ, String, Option, none, some, List, [], ◌++◌, ltb, length, take, drop, if◌then◌else◌, ◌≡◌, ap,
}
use netwhy.Tcp.{ErrorKind}

-- `std::io::Error`; the status is that of `HttpConnectStatusError`.
pub record IoError : Type 0 where
  pub kind : ErrorKind
  pub text : String
  pub connect_status : Option ℕ

-- `early_eof` is what `read_exact` gives when the peer has closed, `reset` what any read gives past the
-- bytes of a connection that broke, and `refuses` what a write gives.
pub record Stream : Type 0 where
  pub incoming : List ℕ
  pub written : List ℕ
  pub early_eof : IoError
  pub reset : Option IoError
  pub refuses : Option IoError

-- `std::io::Result`
pub data IoResult {ℓ} (A : Type ℓ) : Type ℓ where
  ok : A → IoResult A
  failed : IoError → IoResult A

-- An async block on a connection
abbrev pub Io {ℓ} : Type ℓ → Type ℓ
Io A = Stream → IoResult A × Stream

module _ {ℓ κ} {A : Type ℓ} {B : Type κ} where
  -- What follows a step
  abbrev pub after : IoResult A × Stream → (A → Io B) → IoResult B × Stream
  after (ok a, s) f = f a s
  after (failed e, s) f = (failed e, s)

  infixl 5 ◌>>=◌ ◌>>◌
  abbrev pub ◌>>=◌ : Io A → (A → Io B) → Io B
  m >>= f = λ s. after (m s) f

  abbrev pub ◌>>◌ : Io A → Io B → Io B
  m >> k = m >>= (λ _. k)

module _ {ℓ} {A : Type ℓ} where
  abbrev pub return : A → Io A
  return a = λ s. (ok a, s)

  -- `Error::new`
  abbrev pub error : ErrorKind → String → IoResult A
  error kind text = failed (record { kind = kind; text = text; connect_status = none })

  -- `Err(..)`
  abbrev pub fail : ErrorKind → String → Io A
  fail kind text = λ s. (error kind text, s)

  abbrev pub of_result : IoResult A → Io A
  of_result r = λ s. (r, s)

-- `write_all` and `flush`
abbrev pub write_outcome : Option IoError → List ℕ → Stream → IoResult (Unit {0}) × Stream
write_outcome none bytes s = (ok tt, record s { written = s.written ++ bytes })
write_outcome (some e) bytes s = (failed e, s)

unfoldable pub write_all : List ℕ → Io (Unit {0})
write_all bytes s = write_outcome s.refuses bytes s

abbrev end_outcome {ℓ} : {A : Type ℓ} → IoError → Option IoError → IoResult A
end_outcome early none = failed early
end_outcome early (some e) = failed e

-- `read_exact` of a number of bytes
unfoldable pub read_exact : ℕ → Io (List ℕ)
read_exact n s =
    if ltb (length s.incoming) n
    then (end_outcome s.early_eof s.reset, record s { incoming = [] })
    else (ok (take n s.incoming), record s { incoming = drop n s.incoming })

pub ok-injective {ℓ} : {A : Type ℓ} (a b : A) → IoResult.ok a ≡ IoResult.ok b → a ≡ b
ok-injective {A = A} a b e = ap value e
  where
    value : IoResult A → A
    value (IoResult.ok x) = x
    value (IoResult.failed x) = a
