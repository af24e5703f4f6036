-- ===== src/Prelude/Pieces.antt =====
-- Texts in pieces: what the program uses of `str` to split, to trim, to search and to read numbers.
use Prim.Native.Nat.{ℕ, ◌+◌, ◌-◌, ◌*◌}
use Prim.Native.Char.{code}
use Prim.Native.String.{String, char_at}
use mathlib.Core.Bool.{Bool, true, false, ◌&&◌, ◌||◌}
use mathlib.Core.List.{List, [], ◌∷◌}
use mathlib.Core.Option.{Option, none, some}
use netwhy.Prelude.Tests.{ltb, leb, ◌==◌, if◌then◌else◌, map_option}
use netwhy.Prelude.Lists.{any}
use netwhy.Prelude.Text.{starts_with}

-- `is_empty`
abbrev pub is_blank : String → Bool
is_blank String.[] = true
is_blank (String.◌∷◌ c s) = false

-- `char::is_whitespace`
abbrev pub is_whitespace : ℕ → Bool
is_whitespace c =
    (leb 9 c && leb c 13)
    || (leb 8192 c && leb c 8202)
    || any (λ d. c == d) (32 ∷ 133 ∷ 160 ∷ 5760 ∷ 8232 ∷ 8233 ∷ 8239 ∷ 8287 ∷ 12288 ∷ [])

-- `trim_start_matches` of a test on characters
abbrev pub trim_start_by : (ℕ → Bool) → String → String
trim_start_by p String.[] = String.[]
trim_start_by p (String.◌∷◌ c s) =
    let rest = trim_start_by p s in if p (code c) then rest else String.◌∷◌ c s

-- `trim_end_matches` of a test on characters
abbrev pub trim_end_by : (ℕ → Bool) → String → String
trim_end_by p String.[] = String.[]
trim_end_by p (String.◌∷◌ c s) =
    let rest = trim_end_by p s in
    if is_blank rest && p (code c) then String.[] else String.◌∷◌ c rest

-- `trim`
unfoldable pub trim : String → String
trim s = trim_end_by is_whitespace (trim_start_by is_whitespace s)

-- `trim_matches(['[', ']'])`
unfoldable pub trim_brackets : String → String
trim_brackets s =
    let is_bracket = λ (c : ℕ). c == b'[' || c == b']' in
    trim_end_by is_bracket (trim_start_by is_bracket s)

-- `contains` of a text
abbrev pub contains_str : String → String → Bool
contains_str t String.[] = starts_with String.[] t
contains_str t (String.◌∷◌ c s) = starts_with (String.◌∷◌ c s) t || contains_str t s

-- `contains` of a character
abbrev pub contains_char : ℕ → String → Bool
contains_char d String.[] = false
contains_char d (String.◌∷◌ c s) = code c == d || contains_char d s

-- `matches(..).count()` of a character
abbrev pub count_char : ℕ → String → ℕ
count_char d String.[] = 0
count_char d (String.◌∷◌ c s) = (if code c == d then 1 else 0) + count_char d s

-- `split_once` at a character
abbrev pub split_once : ℕ → String → Option (String × String)
split_once d String.[] = none
split_once d (String.◌∷◌ c s) =
    let later : Option (String × String) =
      map_option (λ (p : String × String). (String.◌∷◌ c p.0, p.1)) (split_once d s) in
    if code c == d then some (String.[], s) else later

-- `rsplit_once` at a character
abbrev pub rsplit_once : ℕ → String → Option (String × String)
rsplit_once d String.[] = none
rsplit_once d (String.◌∷◌ c s) = elim (rsplit_once d s) [
  | some (a, b) ↦ some (String.◌∷◌ c a, b)
  | none ↦ if code c == d then some (String.[], s) else none
]

-- `split` at a character; the first piece, and the others
abbrev pub split_from : ℕ → String → String × List String
split_from d String.[] = (String.[], [])
split_from d (String.◌∷◌ c s) =
    let (piece, pieces) = split_from d s in
    if code c == d then (String.[], piece ∷ pieces) else (String.◌∷◌ c piece, pieces)

abbrev pub split : ℕ → String → List String
split d s = let (piece, pieces) = split_from d s in piece ∷ pieces

-- `strip_prefix` of a character
abbrev pub strip_char : ℕ → String → Option String
strip_char d String.[] = none
strip_char d (String.◌∷◌ c s) = if code c == d then some s else none

-- `to_ascii_lowercase`
unfoldable pub to_ascii_lowercase : String → String
to_ascii_lowercase String.[] = String.[]
to_ascii_lowercase (String.◌∷◌ c s) =
    let rest = to_ascii_lowercase s in
    if leb 65 (code c) && leb (code c) 90
    then String.◌∷◌ (char_at "abcdefghijklmnopqrstuvwxyz" (code c - 65)) rest
    else String.◌∷◌ c rest

abbrev pub is_digit : ℕ → Bool
is_digit c = leb 48 c && leb c 57

-- The digits of a number, after those that make up `n`.
abbrev pub digits_value : ℕ → String → Option ℕ
digits_value n String.[] = some n
digits_value n (String.◌∷◌ c s) =
    let later = digits_value (10 * n + (code c - 48)) s in if is_digit (code c) then later else none

abbrev unsigned_digits : String → Option ℕ
unsigned_digits String.[] = none
unsigned_digits (String.◌∷◌ c s) = digits_value 0 (String.◌∷◌ c s)

-- `parse` of an unsigned number below a bound: digits, with or without a plus sign
unfoldable pub parse_below : ℕ → String → Option ℕ
parse_below bound String.[] = none
parse_below bound (String.◌∷◌ c s) =
    elim (if code c == b'+' then unsigned_digits s else unsigned_digits (String.◌∷◌ c s)) [
      | none ↦ none
      | some n ↦ if ltb n bound then some n else none
    ]
