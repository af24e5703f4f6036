-- ===== src/Prelude/Text.antt =====
-- Texts: what the program uses of `str`, `String` and `format!`, over the native strings.
use Prim.Native.Nat.{ℕ, zero, suc, ◌/◌, ◌%◌}
use Prim.Native.Char.{code}
use Prim.Native.String.{String, char_at}
use Prim.Native.String
use mathlib.Core.Bool.{Bool, true, false, ◌&&◌, ◌||◌}
use mathlib.Core.List.{List, [], ◌∷◌}
use text.Mathlib.Text
use netwhy.Prelude.Tests.{ltb, ◌==◌, if◌then◌else◌}
use netwhy.Prelude.Lists.{any}

-- `==` of two texts
abbrev pub str_eq : String → String → Bool
str_eq s t = Text.◌==◌ s t

-- `+` of two texts, as `format!` joins its pieces
infixr 65 ◌<>◌
abbrev pub ◌<>◌ : String → String → String
s <> t = String.◌++◌ s t

-- `starts_with`, character by character
abbrev pub starts_with : String → String → Bool
starts_with s String.[] = true
starts_with String.[] (String.◌∷◌ d t) = false
starts_with (String.◌∷◌ c s) (String.◌∷◌ d t) = code c == code d && starts_with s t

-- `ends_with`: some tail of the text is the suffix
abbrev pub ends_with : String → String → Bool
ends_with String.[] t = str_eq String.[] t
ends_with (String.◌∷◌ c s) t = str_eq (String.◌∷◌ c s) t || ends_with s t

-- `slice::join`
abbrev pub join : String → List String → String
join sep [] = ""
join sep (x ∷ []) = x
join sep (x ∷ y ∷ ys) = x <> (sep <> join sep (y ∷ ys))

-- `[..].contains(&text)`
abbrev pub contains_text : List String → String → Bool
contains_text xs s = any (λ x. str_eq s x) xs

-- One digit, at most fifteen.
abbrev pub digit : ℕ → String
digit d = String.◌∷◌ (char_at "0123456789abcdef" d) String.[]

-- The digits of a number in front of a text; a number has fewer digits than the fuel.
pub digits_onto : ℕ → ℕ → ℕ → String → String
digits_onto zero base n acc = acc
digits_onto (suc fuel) base n acc =
    let rest = digits_onto fuel base (n / base) (digit (n % base) <> acc) in
    if ltb n base then digit n <> acc else rest

-- `{}` of an unsigned number
unfoldable pub decimal : ℕ → String
unfolding digits_onto
decimal n = digits_onto (suc n) 10 n ""

-- `{:x}` of an unsigned number
unfoldable pub lower_hex : ℕ → String
unfolding digits_onto
lower_hex n = digits_onto (suc n) 16 n ""
