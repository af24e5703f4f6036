-- ===== src/Sanitize/Quiet.antt =====
-- What comes out of `sanitize_report_text` of src/lib.rs.
use Prim.Native.Char.{code}
use mathlib.Core.Path.{ap₂}
use text.Mathlib.TextLemmas.{nil-append, cons-append}
use netwhy.Prelude.{
  below, holds_below, all, ℕ, ◌<◌, ◌≡◌, refl, ◌∙◌, Bool, true, not, ◌&&◌, String, ◌<>◌, arith,
  Bool-cases, inl, inr,
}
use netwhy.Sanitize.{is_control, escape_default, sanitize_report_text}

-- The text has no control character.
abbrev pub is_quiet : String → Bool
is_quiet String.[] = true
is_quiet (String.◌∷◌ c s) = not (is_control (code c)) && is_quiet s

is_quiet-append : (s t : String) → is_quiet (s <> t) ≡ (is_quiet s && is_quiet t)
is_quiet-append String.[] t = rw nil-append refl
is_quiet-append (String.◌∷◌ c s) t = rw cons-append (ground (arith, is_quiet-append s t))

escapes_quiet : all (λ c. is_quiet (escape_default c)) (below 160) ≡ true
unfolding below escape_default
escapes_quiet = refl

control_below : (c : ℕ) → is_control c ≡ true → c < 160
control_below c h = ground arith

is_quiet-escape_default : (c : ℕ) → is_control c ≡ true → is_quiet (escape_default c) ≡ true
is_quiet-escape_default c h =
    holds_below 160 (λ c. is_quiet (escape_default c)) escapes_quiet c (control_below c h)

-- No control character is left in a sanitised text.
pub is_quiet-sanitize_report_text : (s : String) → is_quiet (sanitize_report_text s) ≡ true
unfolding sanitize_report_text
is_quiet-sanitize_report_text String.[] = refl
is_quiet-sanitize_report_text (String.◌∷◌ c s) = elim (Bool-cases (is_control (code c))) [
  | inl e ↦ rw e (
      is_quiet-append (escape_default (code c)) (sanitize_report_text s)
      ∙ ap₂ ◌&&◌ (is_quiet-escape_default (code c) e) (is_quiet-sanitize_report_text s))
  | inr e ↦ rw e (ground (arith, is_quiet-sanitize_report_text s))
]

-- A text without control characters is left as it is.
pub sanitize_report_text_of_is_quiet : (s : String) → is_quiet s ≡ true → sanitize_report_text s ≡ s
unfolding sanitize_report_text
sanitize_report_text_of_is_quiet String.[] h = refl
sanitize_report_text_of_is_quiet (String.◌∷◌ c s) h =
    ground (arith, sanitize_report_text_of_is_quiet s)
