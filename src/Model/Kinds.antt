-- ===== src/Model/Kinds.antt =====
-- src/model.rs: the enumerations of the report.
use netwhy.Prelude.{ℕ, Bool, true, false}
use netwhy.Net.{SocketAddr}

pub data Status : Type 0 where
  pass warn fail skip : Status

abbrev pub is_failure : Status → Bool
is_failure Status.fail = true
is_failure _ = false

-- `==` and `!=` of two statuses compare with one of these.
abbrev pub is_pass : Status → Bool
is_pass Status.pass = true
is_pass _ = false

abbrev pub is_warn : Status → Bool
is_warn Status.warn = true
is_warn _ = false

pub data ExecutionContextSource : Type 0 where
  current_process process docker podman : ExecutionContextSource

pub data ContextRelation : Type 0 where
  current shared entered : ContextRelation

pub data ProxyEnvironmentStatus : Type 0 where
  current_process selected_process unavailable : ProxyEnvironmentStatus

abbrev pub is_unavailable : ProxyEnvironmentStatus → Bool
is_unavailable ProxyEnvironmentStatus.unavailable = true
is_unavailable _ = false

pub data CapabilityStatus : Type 0 where
  not_required available : CapabilityStatus

pub data AddressFamilySelection : Type 0 where
  any ipv4 ipv6 : AddressFamilySelection

pub data AddressFamily : Type 0 where
  ipv4 ipv6 : AddressFamily

-- `AddressFamily::from`
abbrev pub family_of : SocketAddr → AddressFamily
family_of (SocketAddr.v4 _ _) = AddressFamily.ipv4
family_of (SocketAddr.v6 _ _ _ _) = AddressFamily.ipv6

-- `==` of two families
abbrev pub family_eq : AddressFamily → AddressFamily → Bool
family_eq AddressFamily.ipv4 AddressFamily.ipv4 = true
family_eq AddressFamily.ipv6 AddressFamily.ipv6 = true
family_eq _ _ = false

pub data DiagnosisCode : Type 0 where
  connectivity_ok dns_resolution_failed tcp_connection_refused no_route tcp_timeout : DiagnosisCode
  tcp_connect_failed address_family_partial application_address_partial : DiagnosisCode
  application_connect_failed proxy_connection_failed tls_handshake_failed : DiagnosisCode
  http_exchange_failed http_error_status : DiagnosisCode

pub data ErrorCode : Type 0 where
  invalid_invocation invalid_target context_unavailable output_error : ErrorCode

-- A signed number of 64 bits, for the validity of a certificate; `negsuc n` is -(n + 1).
pub data ℤ : Type 0 where
  pos negsuc : ℕ → ℤ
