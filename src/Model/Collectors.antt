-- ===== src/Model/Collectors.antt =====
-- src/model.rs: the evidence of the read-only collectors, and what it is before they have run.
use netwhy.Prelude.{ℕ, Bool, true, false, String, Option, none, some, List, []}
use netwhy.Net.{SocketAddr}
use netwhy.Model.Kinds.{Status, AddressFamily}

pub record FirewallMatch : Type 0 where
  pub table : String
  pub chain : String
  pub handle : Option ℕ
  pub verdict : String
  pub confidence : String
  pub comment : Option String

pub record FirewallEvidence : Type 0 where
  pub status : Status
  pub mode : String
  pub inspected_rules : ℕ
  pub relevant_base_chains : List String
  pub matches : List FirewallMatch
  pub incomplete : Bool
  pub error_kind : Option String
  pub error : Option String

abbrev pub default_firewall : FirewallEvidence
default_firewall = record {
  status = Status.skip;
  mode = "static_read_only";
  inspected_rules = 0;
  relevant_base_chains = [];
  matches = [];
  incomplete = true;
  error_kind = some "not_run";
  error = some "nftables evidence was not collected";
}

pub record MtuResult : Type 0 where
  pub status : Status
  pub address : SocketAddr
  pub route_mtu : Option ℕ
  pub discovered_pmtu : Option ℕ
  pub error_kind : Option String
  pub error : Option String

pub record AddressPreferenceEvidence : Type 0 where
  pub status : Status
  pub first_resolved_family : Option AddressFamily
  pub resolver_order : List AddressFamily
  pub policy_source : String
  pub policy_rules : List String
  pub error : Option String

abbrev pub default_address_preference : AddressPreferenceEvidence
default_address_preference = record {
  status = Status.skip;
  first_resolved_family = none;
  resolver_order = [];
  policy_source = "system_default";
  policy_rules = [];
  error = none;
}

pub record ResolverLink : Type 0 where
  pub index : ℕ
  pub name : String
  pub servers : List String
  pub domains : List String
  pub default_route : Option Bool

pub record ResolverEvidence : Type 0 where
  pub status : Status
  pub manager : String
  pub global_servers : List String
  pub global_domains : List String
  pub links : List ResolverLink
  pub error_kind : Option String
  pub error : Option String

abbrev pub default_resolver : ResolverEvidence
default_resolver = record {
  status = Status.skip;
  manager = "system_resolver";
  global_servers = [];
  global_domains = [];
  links = [];
  error_kind = some "not_run";
  error = some "per-link resolver evidence was not collected";
}

pub record ActiveConnection : Type 0 where
  pub name : String
  pub connection_type : String
  pub device : String
  pub vpn : Bool

pub record NetworkManagerEvidence : Type 0 where
  pub status : Status
  pub active_connections : List ActiveConnection
  pub vpn_active : Bool
  pub error_kind : Option String
  pub error : Option String

abbrev pub default_network_manager : NetworkManagerEvidence
default_network_manager = record {
  status = Status.skip;
  active_connections = [];
  vpn_active = false;
  error_kind = some "not_run";
  error = some "NetworkManager evidence was not collected";
}

pub record PathEvidence : Type 0 where
  pub firewall : FirewallEvidence
  pub mtu : List MtuResult
  pub address_preference : AddressPreferenceEvidence
  pub resolver : ResolverEvidence
  pub network_manager : NetworkManagerEvidence

-- `PathEvidence::default`, derived from the defaults above
abbrev pub default_path_evidence : PathEvidence
default_path_evidence = record {
  firewall = default_firewall;
  mtu = [];
  address_preference = default_address_preference;
  resolver = default_resolver;
  network_manager = default_network_manager;
}
