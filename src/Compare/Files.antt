-- ===== src/Compare/Files.antt =====
-- `compare_files` and `describe_input` of src/compare.rs, from what the files were read as.
use netwhy.Prelude.{
  Bool, false, not, ◌&&◌, ◌==◌, leb, String, ◌<>◌, Option, List, [], if◌then◌else◌, str_eq, decimal,
  length, keep, is_empty, and_then, or_else, is_some_and,
}
use netwhy.Prelude.Results.{Result, with_context, on_ok}
use netwhy.Model.{
  Status, ToolInfo, ComparisonChange, ComparisonInput, ComparisonReport, schema_version,
  comparison_schema_version,
}
use netwhy.Json.{Value, field, as_str, as_u64}
use netwhy.Sanitize.{sanitize_report_text}
use netwhy.Compare.{Diff, diff_values}

-- `Value::pointer` and `Value::as_str`
abbrev pub text_at : String → String → Value → Option String
text_at outer inner value = and_then (and_then (field outer value) (field inner)) as_str

abbrev execution_source : Value → Option String
execution_source value =
    and_then
      (and_then (and_then (field "request" value) (field "execution_context")) (field "source"))
      as_str

abbrev is_report : Value → Bool
is_report value =
    is_some_and (λ kind. str_eq kind "diagnostic_report") (and_then (field "kind" value) as_str)

unfoldable pub describe_input : String → Value → Result ComparisonInput
unfolding field sanitize_report_text
describe_input path value =
    if not (is_report value)
    then Result.err (path <> " is not a NetWhy diagnostic report")
    else on_ok
        (with_context (path <> " has no numeric schema_version")
          (and_then (field "schema_version" value) as_u64))
        (λ version.
          if not (leb 1 version && leb version schema_version)
          then Result.err (
              path
              <> (" uses unsupported report schema version "
                  <> (decimal version
                      <> ("; supported versions are 1 through " <> decimal schema_version))))
          else on_ok
              (with_context (path <> " has no target identity")
                (or_else (text_at "target" "original" value) (text_at "target" "host" value)))
              (λ target.
                on_ok (with_context (path <> " has no execution context") (execution_source value))
                  (λ source. Result.ok (record {
                    path = sanitize_report_text path;
                    report_schema_version = version;
                    target = sanitize_report_text target;
                    execution_context = sanitize_report_text source;
                  }))))

abbrev nothing_found : Diff
nothing_found = record { changes = []; truncated = false }

abbrev is_significant : ComparisonChange → Bool
is_significant c = str_eq c.significance "high"

abbrev found_text : List ComparisonChange → String
found_text changes =
    "Found "
    <> (decimal (length changes)
        <> (" difference"
            <> ((if length changes == 1 then "" else "s")
                <> (" ("
                    <> (decimal (length (keep is_significant changes))
                        <> " high-significance).")))))

-- The part of `compare_files` from the inputs on.
unfoldable pub compare_values :
    ToolInfo → ComparisonInput → ComparisonInput → Value → Value → ComparisonReport
unfolding diff_values
compare_values tool left_input right_input left right =
    let found = diff_values "" left right nothing_found in
    record {
      schema_version = comparison_schema_version;
      kind = "comparison_report";
      tool = tool;
      left = left_input;
      right = right_input;
      changes = found.changes;
      truncated = found.truncated;
      summary =
          if is_empty found.changes
          then "The reports are equivalent across all compared fields."
          else found_text found.changes;
      overall = if is_empty found.changes then Status.pass else Status.warn;
      exit_code = 0;
    }

unfoldable pub compare_files :
    ToolInfo → String → String → Result Value → Result Value → Result ComparisonReport
unfolding describe_input compare_values
compare_files tool left_path right_path left_read right_read = on_ok left_read (λ left.
    on_ok right_read (λ right. on_ok (describe_input left_path left) (λ left_input.
      on_ok (describe_input right_path right)
        (λ right_input. Result.ok (compare_values tool left_input right_input left right)))))
