-- ===== src/Diagnosis/Verdict/Conclusion.antt =====
-- What it is for a conclusion to name what the evidence shows.
use netwhy.Prelude.{◌≡◌, some, Option}
use netwhy.Model.{DiagnosticReport}
use netwhy.Diagnosis.State.{Draft}
use netwhy.Diagnosis.Spec.{Names, overall_of}

-- The conclusion of a draft names what the evidence of a report shows.
pub record Reaches (r : DiagnosticReport) (d : Draft) : Type 0 where
  pub named : Names r d.report.diagnosis.code d.report.diagnosis.likely_cause
  pub outcome : d.report.overall ≡ overall_of d.report.diagnosis.code

-- There is a conclusion, and it names what the evidence shows.
abbrev pub Concludes : DiagnosticReport → Option Draft → Type 0
Concludes r o = (d : Draft) × (o ≡ some d) × Reaches r d
