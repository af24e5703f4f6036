-- ===== src/Model/Evidence.antt =====
-- src/model.rs: the request, the target and the evidence of the probes.
use netwhy.Prelude.{ℕ, Bool, String, Option, none, List, []}
use netwhy.Prelude.{false}
use netwhy.Net.{SocketAddr}
use netwhy.Model.Kinds.{
  Status, ExecutionContextSource, ContextRelation, ProxyEnvironmentStatus, CapabilityStatus,
  AddressFamilySelection, AddressFamily, ℤ,
}

pub record ToolInfo : Type 0 where
  pub name : String
  pub version : String

pub record ExecutionContextInfo : Type 0 where
  pub source : ExecutionContextSource
  pub target_pid : Option ℕ
  pub target_container : Option String
  pub network_namespace : ContextRelation
  pub mount_namespace : ContextRelation
  pub filesystem_root : ContextRelation
  pub proxy_environment : ProxyEnvironmentStatus
  pub proxy_error : Option String
  pub required_capabilities : List String
  pub capability_status : CapabilityStatus

-- `ExecutionContextInfo::current`
abbrev pub current_context : ExecutionContextInfo
current_context = record {
  source = ExecutionContextSource.current_process;
  target_pid = none;
  target_container = none;
  network_namespace = ContextRelation.current;
  mount_namespace = ContextRelation.current;
  filesystem_root = ContextRelation.current;
  proxy_environment = ProxyEnvironmentStatus.current_process;
  proxy_error = none;
  required_capabilities = [];
  capability_status = CapabilityStatus.not_required;
}

pub record RequestInfo : Type 0 where
  pub timeout_ms : ℕ
  pub address_family : AddressFamilySelection
  pub application_transport : String
  pub proxy_mode : String
  pub redaction : String
  pub execution_context : ExecutionContextInfo

pub record TargetReport : Type 0 where
  pub original : String
  pub scheme : String
  pub host : String
  pub port : ℕ
  pub url : Option String

pub record DnsResult : Type 0 where
  pub status : Status
  pub duration_ms : ℕ
  pub addresses : List SocketAddr
  pub truncated : Bool
  pub error_kind : Option String
  pub error : Option String

pub record RouteResult : Type 0 where
  pub status : Status
  pub address : SocketAddr
  pub interface : Option String
  pub gateway : Option String
  pub source : Option String
  pub mtu : Option ℕ
  pub advmss : Option ℕ
  pub error_kind : Option String
  pub error : Option String

pub record TcpResult : Type 0 where
  pub status : Status
  pub address : SocketAddr
  pub family : AddressFamily
  pub duration_ms : ℕ
  pub error_kind : Option String
  pub error : Option String

pub record ApplicationConnectResult : Type 0 where
  pub status : Status
  pub duration_ms : ℕ
  pub error_kind : Option String
  pub error : Option String

pub record CertificateInfo : Type 0 where
  pub position : ℕ
  pub der_bytes : ℕ
  pub sha256 : String
  pub subject : Option String
  pub issuer : Option String
  pub serial_number : Option String
  pub not_before_unix : Option ℤ
  pub not_after_unix : Option ℤ
  pub dns_names : List String
  pub ip_addresses : List String

pub record TlsResult : Type 0 where
  pub status : Status
  pub handshake_ms : ℕ
  pub trust_source : String
  pub version : Option String
  pub cipher_suite : Option String
  pub peer_certificates : List CertificateInfo
  pub error : Option String

pub record HttpResult : Type 0 where
  pub status : Status
  pub duration_ms : ℕ
  pub status_code : Option ℕ
  pub status_line : Option String
  pub error : Option String

pub record ApplicationReport : Type 0 where
  pub status : Status
  pub protocol : String
  pub address : SocketAddr
  pub connect : ApplicationConnectResult
  pub tls : Option TlsResult
  pub http : Option HttpResult

pub record ProxyVariable : Type 0 where
  pub name : String
  pub value : String

pub record ProxyConnectResult : Type 0 where
  pub status : Status
  pub address : SocketAddr
  pub duration_ms : ℕ
  pub tunnel_status : Option ℕ
  pub error_kind : Option String
  pub error : Option String

pub record ProxyTransportEvidence : Type 0 where
  pub status : Status
  pub mode : String
  pub selected_proxy : Option String
  pub bypassed : Bool
  pub attempts : List ProxyConnectResult
  pub error_kind : Option String
  pub error : Option String

abbrev pub default_proxy_transport : ProxyTransportEvidence
default_proxy_transport = record {
  status = Status.skip;
  mode = "direct";
  selected_proxy = none;
  bypassed = false;
  attempts = [];
  error_kind = none;
  error = none;
}
