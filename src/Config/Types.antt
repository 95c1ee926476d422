-- ===== src/Config/Types.antt =====
-- internal/config/config.go: the configuration, one record for each struct, with the names of its
-- yaml keys. An `int` is the integer `ℤ`, here within 64 bits; arithmetic on it wraps where it is done.
use splitter.Prelude.{String, Bool, List, ℤ}

pub record InstancesConfig : Type 0 where
  pub per_country : ℤ
  pub countries : ℤ
  pub max_concurrent_requests : ℤ
  pub retries : ℤ

pub record ProxyMasterConfig : Type 0 where
  pub listen : String
  pub port : ℤ
  pub socks_port : ℤ
  pub http_port : ℤ
  pub transparent_port : ℤ
  pub client_timeout : ℤ
  pub server_timeout : ℤ

pub record ProxyStatsConfig : Type 0 where
  pub listen : String
  pub port : ℤ
  pub uri : String

pub record ProxyConfig : Type 0 where
  pub master : ProxyMasterConfig
  pub stats : ProxyStatsConfig
  pub load_balance_algorithm : String
  pub haproxy_http_reuse : String
  pub include_security_headers : Bool
  pub do_not_proxy : List String

pub record RelayConfig : Type 0 where
  pub enforce : String

pub record TorHiddenServiceConfig : Type 0 where
  pub enabled : Bool
  pub base_path : String
  pub start_port : ℤ
  pub max_streams : ℤ
  pub max_streams_close_circuit : Bool
  pub dir_group_readable : Bool
  pub num_introduction_points : ℤ

pub record TorConfig : Type 0 where
  pub binary_path : String
  pub listen_addr : String
  pub start_socks_port : ℤ
  pub start_control_port : ℤ
  pub start_http_port : ℤ
  pub start_transport_port : ℤ
  pub start_dns_port : ℤ
  pub control_auth : String
  pub hidden_service : TorHiddenServiceConfig
  pub minimum_timeout : ℤ
  pub circuit_build_timeout : ℤ
  pub learn_circuit_build_timeout : ℤ
  pub circuits_available_timeout : ℤ
  pub circuit_stream_timeout : ℤ
  pub client_only : ℤ
  pub connection_padding : ℤ
  pub reduced_connection_padding : ℤ
  pub geoip_exclude_unknown : ℤ
  pub strict_nodes : ℤ
  pub fascist_firewall : ℤ
  pub firewall_ports : List ℤ
  pub long_lived_ports : List ℤ
  pub new_circuit_period : ℤ
  pub max_circuit_dirtiness : ℤ
  pub max_client_circuits_pending : ℤ
  pub socks_timeout : ℤ
  pub track_host_exits_expire : ℤ
  pub use_entry_guards : ℤ
  pub num_entry_guards : ℤ
  pub safe_socks : ℤ
  pub test_socks : ℤ
  pub allow_non_rfc953_hostnames : ℤ
  pub client_reject_internal_addresses : ℤ
  pub download_extra_info : ℤ
  pub optimistic_data : String
  pub automap_hosts_suffixes : String
  pub warn_plaintext_ports : String
  pub reject_plaintext_ports : String
  pub sandbox : Bool
  pub stream_isolation : Bool
  pub ipv6 : Bool
  pub conflux_enabled : Bool
  pub congestion_control_auto : Bool
  pub circuit_fingerprinting_resistance : Bool

pub record PrivoxyConfig : Type 0 where
  pub binary_path : String
  pub listen : String
  pub start_port : ℤ
  pub timeout : ℤ
  pub config_file_prefix : String

pub record HaproxyConfig : Type 0 where
  pub binary_path : String
  pub config_file : String

pub record CountryRotationConfig : Type 0 where
  pub enabled : Bool
  pub interval : ℤ
  pub total_to_change : ℤ

pub record CountryConfig : Type 0 where
  pub selected : String
  pub accepted : List String
  pub blacklisted : List String
  pub rotation : CountryRotationConfig
  pub auto_countries : Bool

pub record HealthCheckConfig : Type 0 where
  pub url : String
  pub interval : ℤ
  pub max_fail : ℤ
  pub minimum_success : ℤ

pub record UserAgentConfig : Type 0 where
  pub tor_browser : String
  pub user_agents : List String
  pub default : String

pub record LoggingConfig : Type 0 where
  pub enabled : Bool
  pub dir : String
  pub name_prefix : String
  pub level : String
  pub format : String

pub record PathsConfig : Type 0 where
  pub temp_files : String
  pub proxychains_file : String

pub record DnsConfig : Type 0 where
  pub dist_listen : String
  pub dist_port : ℤ
  pub tor_listen : String

pub record ExitReputationConfig : Type 0 where
  pub enabled : Bool

pub record Config : Type 0 where
  pub instances : InstancesConfig
  pub proxy : ProxyConfig
  pub relay : RelayConfig
  pub tor : TorConfig
  pub privoxy : PrivoxyConfig
  pub haproxy : HaproxyConfig
  pub country : CountryConfig
  pub health_check : HealthCheckConfig
  pub user_agent : UserAgentConfig
  pub logging : LoggingConfig
  pub paths : PathsConfig
  pub dns : DnsConfig
  pub exit_reputation : ExitReputationConfig
  pub profile : String
  pub proxy_mode : String
  pub bridge_type : String
  pub verbose : Bool
  pub log : Bool
  pub log_level : String
