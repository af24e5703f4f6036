-- ===== src/Model/Report.antt =====
-- src/model.rs: the diagnostic report, the comparison report and the error report.
use netwhy.Prelude.{ℕ, Bool, true, false, String, Option, none, List, []}
use netwhy.Json.{Value}
use netwhy.Model.Kinds.{Status, DiagnosisCode, ErrorCode}
use netwhy.Model.Evidence.{
  ToolInfo, RequestInfo, TargetReport, DnsResult, RouteResult, TcpResult, ApplicationReport,
  ProxyVariable, ProxyTransportEvidence,
}
use netwhy.Model.Collectors.{PathEvidence}

pub record PluginResult : Type 0 where
  pub protocol_version : ℕ
  pub name : String
  pub status : Status
  pub summary : String
  pub evidence : Value
  pub error_kind : Option String
  pub error : Option String

pub record Diagnosis : Type 0 where
  pub code : DiagnosisCode
  pub summary : String
  pub likely_cause : Option String
  pub suggestions : List String
  pub notes : List String

abbrev pub default_diagnosis : Diagnosis
default_diagnosis = record {
  code = DiagnosisCode.connectivity_ok;
  summary = "";
  likely_cause = none;
  suggestions = [];
  notes = [];
}

pub record DiagnosticReport : Type 0 where
  pub schema_version : ℕ
  pub kind : String
  pub tool : ToolInfo
  pub generated_at_unix_ms : ℕ
  pub duration_ms : ℕ
  pub request : RequestInfo
  pub target : TargetReport
  pub dns : DnsResult
  pub routes : List RouteResult
  pub tcp : List TcpResult
  pub application_attempts : List ApplicationReport
  pub proxies : List ProxyVariable
  pub proxy_transport : ProxyTransportEvidence
  pub path_evidence : PathEvidence
  pub plugins : List PluginResult
  pub diagnosis : Diagnosis
  pub overall : Status
  pub exit_code : ℕ

abbrev pub schema_version : ℕ
schema_version = 2

abbrev pub comparison_schema_version : ℕ
comparison_schema_version = 1

abbrev pub plugin_schema_version : ℕ
plugin_schema_version = 1

pub record ComparisonInput : Type 0 where
  pub path : String
  pub report_schema_version : ℕ
  pub target : String
  pub execution_context : String

pub record ComparisonChange : Type 0 where
  pub path : String
  pub significance : String
  pub left : Value
  pub right : Value

pub record ComparisonReport : Type 0 where
  pub schema_version : ℕ
  pub kind : String
  pub tool : ToolInfo
  pub left : ComparisonInput
  pub right : ComparisonInput
  pub changes : List ComparisonChange
  pub truncated : Bool
  pub summary : String
  pub overall : Status
  pub exit_code : ℕ

pub record ErrorDetail : Type 0 where
  pub code : ErrorCode
  pub message : String
  pub hint : String
  pub retryable : Bool

pub record ErrorReport : Type 0 where
  pub schema_version : ℕ
  pub kind : String
  pub tool : ToolInfo
  pub overall : Status
  pub exit_code : ℕ
  pub error : ErrorDetail

-- `matches!(code, ErrorCode::OutputError)`
abbrev pub is_retryable : ErrorCode → Bool
is_retryable ErrorCode.output_error = true
is_retryable _ = false

-- `ErrorReport::new`, with the tool of the running program as an argument
unfoldable pub new_error_report : ToolInfo → ErrorCode → String → String → ErrorReport
new_error_report tool code message hint = record {
  schema_version = schema_version;
  kind = "error";
  tool = tool;
  overall = Status.fail;
  exit_code = 2;
  error = record { code = code; message = message; hint = hint; retryable = is_retryable code };
}
