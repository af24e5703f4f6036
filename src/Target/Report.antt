-- ===== src/Target/Report.antt =====
-- What of a target's text src/target.rs puts into a report.
use text.Mathlib.TextLemmas.{cons-append, nil-append, append-nil}
use Prim.Native.Char.{Char, code}
use netwhy.Prelude.{
  ℕ, suc, ◌≡◌, refl, ap, sym, ◌∙◌, Bool, true, false, not, ◌&&◌, ◌==◌, ltb, String, ◌<>◌, Option,
  none, some, if◌then◌else◌, is_some, map_option, contains_char, arith, Bool-cases, inl, inr,
}
use netwhy.Target.{find_char, shown, redact_query_and_fragment}

-- A text without a query or a fragment.
abbrev pub is_plain : String → Bool
is_plain s = not (contains_char b'?' s) && not (contains_char b'#' s)

abbrev pub fragment_mark : Bool → String
fragment_mark present = if present then "#REDACTED" else ""

-- The text as it is redacted, character by character.
hide : String → String
hide String.[] = String.[]
hide (String.◌∷◌ c s) =
    let later = String.◌∷◌ c (hide s) in
    if code c == b'?'
    then "?REDACTED" <> fragment_mark (contains_char b'#' s)
    else if code c == b'#'
    then "#REDACTED"
    else later

is_some-find_char : (d : ℕ) (s : String) → is_some (find_char d s) ≡ contains_char d s
is_some-find_char d String.[] = refl
is_some-find_char d (String.◌∷◌ c s) = elim (Bool-cases (code c == d)) [
  | inl e ↦ rw e refl
  | inr e ↦ rw e (is_some_map (find_char d s) ∙ is_some-find_char d s)
]
  where
    is_some_map : (o : Option ℕ) → is_some (map_option suc o) ≡ is_some o
    is_some_map none = refl
    is_some_map (some n) = refl

not_below : (n : ℕ) → ltb (suc n) 0 ≡ false
not_below n = ground arith

above : (n : ℕ) → ltb 0 (suc n) ≡ true
above n = ground arith

shown_at_query :
    (c : Char) (s : String) (f : Option ℕ)
    → shown (String.◌∷◌ c s) (some 0) (map_option suc f) ≡ "?REDACTED" <> fragment_mark (is_some f)
shown_at_query c s none = refl
shown_at_query c s (some n) = rw (not_below n, above n) refl

shown_at_fragment :
    (c : Char) (s : String) (q : Option ℕ)
    → shown (String.◌∷◌ c s) (map_option suc q) (some 0) ≡ "#REDACTED"
shown_at_fragment c s none = refl
shown_at_fragment c s (some n) = rw (above n, not_below n) refl

shown_later :
    (c : Char) (s : String) (q f : Option ℕ)
    → shown (String.◌∷◌ c s) (map_option suc q) (map_option suc f) ≡ String.◌∷◌ c (shown s q f)
shown_later c s none none = refl
shown_later c s none (some n) = cons-append c _ _
shown_later c s (some m) none = cons-append c _ _
shown_later c s (some m) (some n) = elim (Bool-cases (ltb n m)) [
  | inl e ↦ rw (shifted n m, shifted m n, e) (cons-append c _ _)
  | inr e ↦ rw (shifted n m, shifted m n, e) (cons-append c _ _)
]
  where
    shifted : (m n : ℕ) → ltb (suc m) (suc n) ≡ ltb m n
    shifted m n = ground arith

redact-eq-hide : (s : String) → redact_query_and_fragment s ≡ hide s
unfolding redact_query_and_fragment hide
redact-eq-hide String.[] = refl
redact-eq-hide (String.◌∷◌ c s) = elim (Bool-cases (code c == b'?')) [
  | inl e ↦
      let other : (code c == b'#') ≡ false = ground arith in
      rw (e, other)
        (shown_at_query c s _ ∙ ap (λ b. "?REDACTED" <> fragment_mark b) (is_some-find_char b'#' s))
  | inr e ↦ elim (Bool-cases (code c == b'#')) [
    | inl f ↦ rw (e, f) (shown_at_fragment c s _)
    | inr f ↦ rw (e, f) (shown_later c s _ _ ∙ ap (λ t. String.◌∷◌ c t) (redact-eq-hide s))
  ]
]

hide_plain : (pre s : String) → is_plain pre ≡ true → hide (pre <> s) ≡ pre <> hide s
unfolding hide
hide_plain String.[] s h = ap hide (nil-append s) ∙ sym (nil-append (hide s))
hide_plain (String.◌∷◌ c pre) s h =
    let q : (code c == b'?') ≡ false = ground arith in
    let f : (code c == b'#') ≡ false = ground arith in
    ap hide (cons-append c pre s)
    ∙ kept q f
    ∙ ap (λ t. String.◌∷◌ c t) (hide_plain pre s (ground arith))
    ∙ sym (cons-append c pre (hide s))
  where
    kept :
        (code c == b'?') ≡ false
        → (code c == b'#') ≡ false
        → hide (String.◌∷◌ c (pre <> s)) ≡ String.◌∷◌ c (hide (pre <> s))
    kept q f = rw (q, f) refl

-- Of a target with a query or a fragment the report shows what stands in front of it, and for each of
-- the two only that it is there; a target with neither is shown as it is.
pub redact_query_and_fragment_lem :
    (pre : String)
    → is_plain pre ≡ true
    → (redact_query_and_fragment pre ≡ pre)
      × ((c : Char) (query : String)
          → code c ≡ b'?'
          → redact_query_and_fragment (pre <> String.◌∷◌ c query)
            ≡ pre <> ("?REDACTED" <> fragment_mark (contains_char b'#' query)))
      × ((c : Char) (fragment : String)
          → code c ≡ b'#'
          → redact_query_and_fragment (pre <> String.◌∷◌ c fragment) ≡ pre <> "#REDACTED")
unfolding hide
redact_query_and_fragment_lem pre h = (
  redact-eq-hide pre ∙ ap hide (sym (append-nil pre)) ∙ hide_plain pre "" h ∙ append-nil pre,
  (λ c query e.
      redact-eq-hide _
      ∙ hide_plain pre _ h
      ∙ ap (λ t. pre <> t) (let q : (code c == b'?') ≡ true = ground arith in rw q refl)),
  (λ c fragment e.
      redact-eq-hide _
      ∙ hide_plain pre _ h
      ∙ ap (λ t. pre <> t)
          (let q : (code c == b'?') ≡ false = ground arith in
            let f : (code c == b'#') ≡ true = ground arith in rw (q, f) refl)),
)
