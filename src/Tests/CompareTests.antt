-- ===== src/Tests/CompareTests.antt =====
-- src/compare.rs
use netwhy.Prelude.{
  ℕ, zero, suc, ◌<◌, ◌≡◌, ◌↔◌, refl, true, false, String, [], ◌∷◌, map, take, length,
}
use netwhy.Prelude.Results.{Result}
use netwhy.Model.{Status, ToolInfo, ComparisonChange, ComparisonInput, ComparisonReport}
use netwhy.Json.{Value, Items, Number}
use netwhy.Json.Value.{object, array, string, number}
use netwhy.Json.Members.{member, end}
use netwhy.Compare.{max_changes}
use netwhy.Compare.Differences.{differences}
use netwhy.Compare.Files.{describe_input, compare_values, compare_files}
use netwhy.Compare.Volatile.{Lasting, compare_values-Lasting}
use netwhy.Compare.Outcome.{compare_values-differences, compare_files_same}

abbrev tool : ToolInfo
tool = record { name = "netwhy"; version = "0" }

abbrev count : ℕ → Value
count n = number (Number.unsigned n)

abbrev report_with : String → ℕ → Value
report_with status elapsed = object (
    member "dns"
      (object (member "duration_ms" (count elapsed) (member "status" (string status) end)))
      (member "kind" (string "diagnostic_report") (
        member "request"
          (object (
            member "execution_context" (object (member "source" (string "current_process") end))
              end))
          (member "schema_version" (count 2)
            (member "target" (object (member "original" (string "example.com") end)) end)))))

abbrev input : ComparisonInput
input = record {
  path = "a.json";
  report_schema_version = 2;
  target = "example.com";
  execution_context = "current_process";
}

-- The elapsed time is volatile, the status is not.
paths_differ :
    map
      (λ (c : ComparisonChange). c.path)
      (compare_values tool input input (report_with "pass" 3) (report_with "fail" 9)).changes
    ≡ "/dns/status" ∷ []
unfolding compare_values
paths_differ = refl

described : describe_input "a.json" (report_with "pass" 3) ≡ Result.ok input
unfolding describe_input
described = refl

compare_values-differences_example :
    let report = compare_values tool input input (report_with "pass" 3) (report_with "fail" 9) in
    let all = differences "" (report_with "pass" 3) (report_with "fail" 9) in
    (report.changes ≡ take max_changes all)
    × (max_changes < length all → report.truncated ≡ true)
    × (report.truncated ≡ true → length report.changes ≡ max_changes)
    × ((report.overall ≡ Status.pass) ↔ (all ≡ []))
compare_values-differences_example =
    compare_values-differences tool input input (report_with "pass" 3) (report_with "fail" 9)

compare_files_same_example :
    (report : ComparisonReport) × (compare_files tool "a.json" "a.json"
        (Result.ok (report_with "pass" 3))
        (Result.ok (report_with "pass" 3))
      ≡ Result.ok report)
    × (report.changes ≡ [])
    × (report.truncated ≡ false)
    × (report.overall ≡ Status.pass)
    × (report.left ≡ input)
    × (report.right ≡ input)
compare_files_same_example =
    compare_files_same tool "a.json" "a.json" (report_with "pass" 3) input input described described

abbrev repeat : ℕ → Value → Items
repeat zero v = Items.nil
repeat (suc n) v = Items.item v (repeat n v)

-- As many differences as the limit lets through, and then an object that differs in its time only.
abbrev at_limit : Value → ℕ → Value
at_limit v elapsed = object (
    member "a" (array (repeat max_changes v))
      (member "b" (object (member "duration_ms" (count elapsed) end)) end))

none_lost :
    length (differences "" (at_limit Value.null 1) (at_limit (Value.bool true) 2)) ≡ max_changes
unfolding differences
none_lost = refl

yet_truncated :
    (compare_values tool input input
      (at_limit Value.null 1)
      (at_limit (Value.bool true) 2)).truncated
    ≡ true
unfolding compare_values
yet_truncated = refl

compare_values-Lasting_example :
    Lasting (compare_values tool input input (report_with "pass" 3) (report_with "fail" 9)).changes
compare_values-Lasting_example =
    compare_values-Lasting tool input input (report_with "pass" 3) (report_with "fail" 9)
