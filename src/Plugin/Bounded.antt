-- ===== src/Plugin/Bounded.antt =====
-- What of the output of a plugin src/plugin.rs lets into a report.
use netwhy.Prelude.{
  ℕ, zero, suc, ◌≤◌, ◌≡◌, ◌⊎◌, refl, true, false, ◌||◌, ◌==◌, ltb, String, Option, none, some,
  Bool-cases, inl, inr, arith, is_blank, trim, map_option, if◌then◌else◌,
}
use netwhy.Prelude.Results.{Result}
use netwhy.Model.{PluginResult, Status, plugin_schema_version}
use netwhy.Json.{Value, Items, Members}
use netwhy.Sanitize.{sanitize_report_text}
use netwhy.Sanitize.Quiet.{is_quiet, is_quiet-sanitize_report_text}
use netwhy.Plugin.{
  PluginDocument, PluginRun, count_chars, take_chars, bounded_report_text, sanitize_json,
  sanitize_items, sanitize_members, failed_plugin, name_of, accepted, status_of, with_status,
  check_document, of_document, invoke_plugin, max_plugin_name_chars, max_plugin_summary_chars,
}

count_chars-take_chars : (n : ℕ) (s : String) → count_chars (take_chars n s) ≤ n
count_chars-take_chars zero s = omega arith
count_chars-take_chars (suc n) String.[] = omega arith
count_chars-take_chars (suc n) (String.◌∷◌ c s) = omega (arith, count_chars-take_chars n s)

is_quiet-take_chars : (n : ℕ) (s : String) → is_quiet s ≡ true → is_quiet (take_chars n s) ≡ true
is_quiet-take_chars zero s h = refl
is_quiet-take_chars (suc n) String.[] h = refl
is_quiet-take_chars (suc n) (String.◌∷◌ c s) h = ground (arith, is_quiet-take_chars n s)

-- A text of at most so many characters, none of them a control character
abbrev pub IsText : ℕ → String → Type 0
IsText n s = (count_chars s ≤ n) × (is_quiet s ≡ true)

IsText-bounded_report_text : (s : String) (n : ℕ) → IsText n (bounded_report_text s n)
unfolding bounded_report_text
IsText-bounded_report_text s n = (
  count_chars-take_chars n (sanitize_report_text s),
  is_quiet-take_chars n (sanitize_report_text s) (is_quiet-sanitize_report_text s),
)

-- The texts of a JSON value have no control characters; the keys of its objects may.
mutual
  pub IsQuiet : Value → Type 0
  IsQuiet (Value.string text) = is_quiet text ≡ true
  IsQuiet (Value.array values) = AreQuiet values
  IsQuiet (Value.object values) = MembersAreQuiet values
  IsQuiet Value.null = Unit
  IsQuiet (Value.bool b) = Unit
  IsQuiet (Value.number n) = Unit

  pub AreQuiet : Items → Type 0
  AreQuiet Items.nil = Unit
  AreQuiet (Items.item v vs) = IsQuiet v × AreQuiet vs

  pub MembersAreQuiet : Members → Type 0
  MembersAreQuiet Members.end = Unit
  MembersAreQuiet (Members.member key v vs) = IsQuiet v × MembersAreQuiet vs

mutual
  unfolding IsQuiet sanitize_json

  IsQuiet-sanitize_json : (v : Value) → IsQuiet (sanitize_json v)
  IsQuiet-sanitize_json (Value.string text) = is_quiet-sanitize_report_text text
  IsQuiet-sanitize_json (Value.array values) = AreQuiet-sanitize_items values
  IsQuiet-sanitize_json (Value.object values) = MembersAreQuiet-sanitize_members values
  IsQuiet-sanitize_json Value.null = tt
  IsQuiet-sanitize_json (Value.bool b) = tt
  IsQuiet-sanitize_json (Value.number n) = tt

  AreQuiet-sanitize_items : (vs : Items) → AreQuiet (sanitize_items vs)
  AreQuiet-sanitize_items Items.nil = tt
  AreQuiet-sanitize_items (Items.item v vs) = (IsQuiet-sanitize_json v, AreQuiet-sanitize_items vs)

  MembersAreQuiet-sanitize_members : (vs : Members) → MembersAreQuiet (sanitize_members vs)
  MembersAreQuiet-sanitize_members Members.end = tt
  MembersAreQuiet-sanitize_members (Members.member key v vs) =
      (IsQuiet-sanitize_json v, MembersAreQuiet-sanitize_members vs)

abbrev pub IsQuietOption : Option String → Type 0
IsQuietOption none = Unit
IsQuietOption (some s) = is_quiet s ≡ true

-- A result that may stand in a report
pub record IsClean (r : PluginResult) : Type 0 where
  pub version : r.protocol_version ≡ plugin_schema_version
  pub name : IsText max_plugin_name_chars r.name
  pub summary : IsText max_plugin_summary_chars r.summary
  pub evidence : IsQuiet r.evidence
  pub error_kind : IsQuietOption r.error_kind
  pub error : IsQuietOption r.error

IsText-name_of : (file_name : Option String) → IsText max_plugin_name_chars (name_of file_name)
IsText-name_of none = (omega arith, refl)
IsText-name_of (some file_name) =
    let shown = bounded_report_text file_name max_plugin_name_chars in
    elim (Bool-cases (is_blank (trim shown))) [
      | inl b ↦ rw b (omega arith, refl)
      | inr b ↦ rw b (IsText-bounded_report_text file_name max_plugin_name_chars)
    ]

IsClean-failed_plugin :
    (file_name : Option String) (kind error : String)
    → is_quiet kind ≡ true
    → IsClean (failed_plugin file_name kind error)
unfolding failed_plugin IsQuiet
IsClean-failed_plugin file_name kind error h = record {
  version = refl;
  name = IsText-name_of file_name;
  summary = (omega arith, refl);
  evidence = tt;
  error_kind = h;
  error = is_quiet-sanitize_report_text error;
}

IsQuietOption-sanitize : (o : Option String) → IsQuietOption (map_option sanitize_report_text o)
IsQuietOption-sanitize none = tt
IsQuietOption-sanitize (some s) = is_quiet-sanitize_report_text s

IsClean-accepted :
    (d : PluginDocument) (status : Status)
    → (d.protocol_version == plugin_schema_version) ≡ true
    → IsClean (accepted d status)
IsClean-accepted d status h = record {
  version = ground arith;
  name = IsText-bounded_report_text d.name max_plugin_name_chars;
  summary = IsText-bounded_report_text d.summary max_plugin_summary_chars;
  evidence = IsQuiet-sanitize_json d.evidence;
  error_kind = IsQuietOption-sanitize d.error_kind;
  error = IsQuietOption-sanitize d.error;
}

-- A result that is no skip comes from a run that ended well, of which the output was read as a document.
abbrev pub IsOfDocument : PluginRun → PluginResult → Type 0
IsOfDocument run r =
    (r.status ≡ Status.skip)
    ⊎ ((error : String) × (d : PluginDocument) × (run
          ≡ PluginRun.finished false true error (Result.ok d))
        × (status_of d.status ≡ some r.status))

abbrev IsChecked : PluginDocument → Result PluginResult → Type 0
IsChecked d (Result.err error) = Unit
IsChecked d (Result.ok r) = IsClean r × (status_of d.status ≡ some r.status)

IsChecked-with_status :
    (d : PluginDocument) (status : Option Status)
    → (d.protocol_version == plugin_schema_version) ≡ true
    → status_of d.status ≡ status
    → IsChecked d (with_status d status)
IsChecked-with_status d none h e = tt
IsChecked-with_status d (some status) h e = (IsClean-accepted d status h, e)

IsChecked-check_document : (d : PluginDocument) → IsChecked d (check_document d)
unfolding check_document
IsChecked-check_document d = elim (Bool-cases (d.protocol_version == plugin_schema_version)) [
  | inr v ↦ rw v tt
  | inl v ↦
      elim (Bool-cases (is_blank (trim d.name) || ltb max_plugin_name_chars (count_chars d.name))) [
        | inl n ↦ rw (v, n) tt
        | inr n ↦ elim (Bool-cases (ltb max_plugin_summary_chars (count_chars d.summary))) [
          | inl s ↦ rw (v, n, s) tt
          | inr s ↦ rw (v, n, s) (IsChecked-with_status d (status_of d.status) v refl)
        ]
      ]
]

-- A skip of a clean result
skip :
    (run : PluginRun) (file_name : Option String) (kind error : String)
    → is_quiet kind ≡ true
    → IsClean (failed_plugin file_name kind error)
      × IsOfDocument run (failed_plugin file_name kind error)
unfolding failed_plugin
skip run file_name kind error h = (IsClean-failed_plugin file_name kind error h, inl refl)

of_checked :
    (file_name : Option String) (error : String) (d : PluginDocument) (r : Result PluginResult)
    → IsChecked d r
    → IsClean (of_document file_name r)
      × IsOfDocument (PluginRun.finished false true error (Result.ok d)) (of_document file_name r)
of_checked file_name error d (Result.err e) h = skip _ file_name "protocol_error" e refl
of_checked file_name error d (Result.ok r) h = (h.0, inr (error, d, refl, h.1))

-- However a plugin ends, its result is of the version of the protocol, its name has at most 128 characters and
-- its summary at most 4096, and none of its name, its summary, the kind and the text of its error and the
-- string values in its evidence, at any depth, has a control character (the keys in the evidence may have,
-- and the lengths of the error and of the evidence are not bounded here); and it is a skip, unless the plugin ended well and its output was read as a document, whose
-- status it then has.
pub invoke_plugin-IsClean :
    (file_name : Option String) (not_found : String) (run : PluginRun)
    → IsClean (invoke_plugin file_name not_found run)
      × IsOfDocument run (invoke_plugin file_name not_found run)
unfolding invoke_plugin
invoke_plugin-IsClean file_name not_found PluginRun.missing =
    skip PluginRun.missing file_name "tool_missing" not_found refl
invoke_plugin-IsClean file_name not_found (PluginRun.io_error error) =
    skip (PluginRun.io_error error) file_name "tool_failed" error refl
invoke_plugin-IsClean file_name not_found PluginRun.timeout =
    skip PluginRun.timeout file_name "timeout" "plugin timed out" refl
invoke_plugin-IsClean file_name not_found (PluginRun.finished true success error read) =
    skip _ file_name "output_truncated" "plugin output exceeded the 256 KiB safety limit" refl
invoke_plugin-IsClean file_name not_found (PluginRun.finished false false error read) =
    skip (PluginRun.finished false false error read) file_name "tool_failed"
      (if is_blank (trim error) then "plugin exited unsuccessfully" else trim error) refl
invoke_plugin-IsClean file_name not_found (PluginRun.finished false true error (Result.err e)) =
    skip _ file_name "protocol_error" e refl
invoke_plugin-IsClean file_name not_found (PluginRun.finished false true error (Result.ok d)) =
    of_checked file_name error d (check_document d) (IsChecked-check_document d)
