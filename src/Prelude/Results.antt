-- ===== src/Prelude/Results.antt =====
-- `Result` with a text for its error, as `anyhow` builds them.
use mathlib.Core.Path.{◌≡◌, ap}
use mathlib.Core.Option.{Option, none, some}
use Prim.Native.String.{String}

pub data Result {ℓ} (A : Type ℓ) : Type ℓ where
  ok : A → Result A
  err : String → Result A

-- `Option::with_context`
abbrev pub with_context {ℓ} : {A : Type ℓ} → String → Option A → Result A
with_context error none = Result.err error
with_context error (some a) = Result.ok a

module _ {ℓ κ} {A : Type ℓ} {B : Type κ} where
  -- `?` in front of what follows it
  abbrev pub on_ok : Result A → (A → Result B) → Result B
  on_ok (Result.ok a) f = f a
  on_ok (Result.err error) f = Result.err error

-- `Result::context`: the text stands for the error
abbrev pub context {ℓ} : {A : Type ℓ} → String → Result A → Result A
context error (Result.ok a) = Result.ok a
context error (Result.err cause) = Result.err error

pub ok-injective {ℓ} : {A : Type ℓ} (a b : A) → Result.ok a ≡ Result.ok b → a ≡ b
ok-injective {A = A} a b e = ap from e
  where
    from : Result A → A
    from (Result.ok x) = x
    from (Result.err error) = a
