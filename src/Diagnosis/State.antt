-- ===== src/Diagnosis/State.antt =====
-- src/diagnosis.rs: the report and the suggestions that the functions of the file write to.
use netwhy.Prelude.{String, Option, List, [], ◌∷◌, ◌++◌}
use netwhy.Model.{Status, DiagnosisCode, DiagnosticReport}

pub record Draft : Type 0 where
  pub report : DiagnosticReport
  pub suggestions : List String

-- Assignments follow one another from left to right.
infixl 6 ◌▸◌
abbrev pub ◌▸◌ : Draft → (Draft → Draft) → Draft
d ▸ f = f d

abbrev pub set_overall : Status → Draft → Draft
set_overall s d = record d { report = record d.report { overall = s } }

abbrev pub set_code : DiagnosisCode → Draft → Draft
set_code c d = record d {
  report = record d.report { diagnosis = record d.report.diagnosis { code = c } };
}

abbrev pub set_summary : String → Draft → Draft
set_summary text d = record d {
  report = record d.report { diagnosis = record d.report.diagnosis { summary = text } };
}

abbrev pub set_likely_cause : Option String → Draft → Draft
set_likely_cause cause d = record d {
  report = record d.report { diagnosis = record d.report.diagnosis { likely_cause = cause } };
}

-- `suggestions.push`
abbrev pub suggest : String → Draft → Draft
suggest text d = record d { suggestions = d.suggestions ++ text ∷ [] }
