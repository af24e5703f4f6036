-- ===== src/Sanitize.antt =====
-- src/lib.rs: `sanitize_report_text`, which every untrusted text goes through on its way into a
-- report.
pub mod Quiet
use Prim.Native.Char.{code}
use netwhy.Prelude.{ℕ, Bool, ◌&&◌, ◌||◌, String, ◌<>◌, ltb, leb, ◌==◌, if◌then◌else◌, lower_hex}

-- `char::is_control`
abbrev pub is_control : ℕ → Bool
is_control c = ltb c 32 || (leb 127 c && ltb c 160)

-- `char::escape_default` of a control character
unfoldable pub escape_default : ℕ → String
unfolding lower_hex
escape_default c =
    if c == 9
    then "\\t"
    else if c == 10
    then "\\n"
    else if c == 13
    then "\\r"
    else "\\u{" <> (lower_hex c <> "}")

unfoldable pub sanitize_report_text : String → String
unfolding escape_default
sanitize_report_text String.[] = String.[]
sanitize_report_text (String.◌∷◌ c s) =
    let rest = sanitize_report_text s in
    if is_control (code c) then escape_default (code c) <> rest else String.◌∷◌ c rest
