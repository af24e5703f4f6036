-- ===== src/Plugin.antt =====
-- src/plugin.rs: what one plugin is asked and what its answer becomes. The process and the reading of its
-- output as a document are arguments.
pub mod Bounded
use netwhy.Prelude.{
  ℕ, zero, suc, ◌+◌, Bool, true, false, not, ◌&&◌, ◌||◌, ◌==◌, ltb, String, ◌<>◌, Option, none,
  some, List, [], ◌∷◌, if◌then◌else◌, str_eq, is_blank, map_option, unwrap_or, decimal, trim,
}
use netwhy.Prelude.Results.{Result, on_ok}
use netwhy.Model.{Status, PluginResult, plugin_schema_version}
use netwhy.Sanitize.{sanitize_report_text}
use netwhy.Json.{Value, Items, Members}
use netwhy.Target.{Target}

abbrev pub max_plugin_name_chars : ℕ
max_plugin_name_chars = 128

abbrev pub max_plugin_summary_chars : ℕ
max_plugin_summary_chars = 4096

-- `PluginDocument`, with the defaults of the members that are missing filled in
pub record PluginDocument : Type 0 where
  pub protocol_version : ℕ
  pub name : String
  pub status : String
  pub summary : String
  pub evidence : Value
  pub error_kind : Option String
  pub error : Option String

abbrev pub plugin_arguments : Target → ℕ → List String
plugin_arguments target timeout_ms =
    "netwhy-probe"
    ∷ "--protocol-version"
    ∷ decimal plugin_schema_version
    ∷ "--scheme"
    ∷ target.scheme
    ∷ "--host"
    ∷ target.host
    ∷ "--port"
    ∷ decimal target.port
    ∷ "--timeout-ms"
    ∷ decimal timeout_ms
    ∷ []

-- `chars().count()`
abbrev pub count_chars : String → ℕ
count_chars String.[] = 0
count_chars (String.◌∷◌ c s) = suc (count_chars s)

-- `chars().take(..)`
abbrev pub take_chars : ℕ → String → String
take_chars zero s = String.[]
take_chars (suc n) String.[] = String.[]
take_chars (suc n) (String.◌∷◌ c s) = String.◌∷◌ c (take_chars n s)

unfoldable pub bounded_report_text : String → ℕ → String
unfolding sanitize_report_text
bounded_report_text value max_characters = take_chars max_characters (sanitize_report_text value)

unfoldable mutual
  unfolding sanitize_report_text

  pub sanitize_json : Value → Value
  sanitize_json (Value.string text) = Value.string (sanitize_report_text text)
  sanitize_json (Value.array values) = Value.array (sanitize_items values)
  sanitize_json (Value.object values) = Value.object (sanitize_members values)
  sanitize_json Value.null = Value.null
  sanitize_json (Value.bool b) = Value.bool b
  sanitize_json (Value.number n) = Value.number n

  pub sanitize_items : Items → Items
  sanitize_items Items.nil = Items.nil
  sanitize_items (Items.item v vs) = Items.item (sanitize_json v) (sanitize_items vs)

  pub sanitize_members : Members → Members
  sanitize_members Members.end = Members.end
  sanitize_members (Members.member key v vs) =
      Members.member key (sanitize_json v) (sanitize_members vs)

-- A name of the program that can be shown
abbrev shown_name : String → Option String
shown_name name = if is_blank (trim name) then none else some name

abbrev name_of : Option String → String
name_of none = "plugin"
name_of (some file_name) =
    unwrap_or "plugin" (shown_name (bounded_report_text file_name max_plugin_name_chars))

unfoldable pub failed_plugin : Option String → String → String → PluginResult
unfolding bounded_report_text trim
failed_plugin file_name kind error = record {
  protocol_version = plugin_schema_version;
  name = name_of file_name;
  status = Status.skip;
  summary = "Plugin evidence was unavailable.";
  evidence = Value.object Members.end;
  error_kind = some kind;
  error = some (sanitize_report_text error);
}

abbrev pub status_of : String → Option Status
status_of text =
    if str_eq text "pass"
    then some Status.pass
    else if str_eq text "warn"
    then some Status.warn
    else if str_eq text "fail"
    then some Status.fail
    else if str_eq text "skip"
    then some Status.skip
    else none

abbrev accepted : PluginDocument → Status → PluginResult
accepted document status = record {
  protocol_version = document.protocol_version;
  name = bounded_report_text document.name max_plugin_name_chars;
  status = status;
  summary = bounded_report_text document.summary max_plugin_summary_chars;
  evidence = sanitize_json document.evidence;
  error_kind = map_option sanitize_report_text document.error_kind;
  error = map_option sanitize_report_text document.error;
}

abbrev with_status : PluginDocument → Option Status → Result PluginResult
with_status document none = Result.err "plugin status must be pass, warn, fail, or skip"
with_status document (some status) = Result.ok (accepted document status)

-- The tests of `parse_plugin_document` on what the output was read as
unfoldable pub check_document : PluginDocument → Result PluginResult
unfolding trim bounded_report_text sanitize_json
check_document document =
    if not (document.protocol_version == plugin_schema_version)
    then Result.err (
        "unsupported plugin protocol version "
        <> (decimal document.protocol_version <> ("; expected " <> decimal plugin_schema_version)))
    else if is_blank (trim document.name) || ltb max_plugin_name_chars (count_chars document.name)
    then Result.err "plugin name must contain 1 to 128 characters"
    else if ltb max_plugin_summary_chars (count_chars document.summary)
    then Result.err "plugin summary exceeded the 4096-character limit"
    else with_status document (status_of document.status)

-- What a run of a plugin comes to: an error before it ends, or its exit with the text of its errors and what
-- its output was read as.
pub data PluginRun : Type 0 where
  missing timeout : PluginRun
  io_error : String → PluginRun
  finished : (truncated success : Bool) → String → Result PluginDocument → PluginRun

abbrev of_document : Option String → Result PluginResult → PluginResult
of_document file_name (Result.ok r) = r
of_document file_name (Result.err error) = failed_plugin file_name "protocol_error" error

-- `invoke_plugin`; an error of the system has its text.
unfoldable pub invoke_plugin : Option String → String → PluginRun → PluginResult
unfolding failed_plugin check_document trim
invoke_plugin file_name not_found PluginRun.missing =
    failed_plugin file_name "tool_missing" not_found
invoke_plugin file_name not_found (PluginRun.io_error error) =
    failed_plugin file_name "tool_failed" error
invoke_plugin file_name not_found PluginRun.timeout =
    failed_plugin file_name "timeout" "plugin timed out"
invoke_plugin file_name not_found (PluginRun.finished truncated success error read) =
    if truncated
    then failed_plugin file_name "output_truncated"
        "plugin output exceeded the 256 KiB safety limit"
    else if not success
    then failed_plugin file_name "tool_failed"
        (if is_blank (trim error) then "plugin exited unsuccessfully" else trim error)
    else of_document file_name (on_ok read check_document)
