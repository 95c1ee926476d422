-- ===== src/Tor/Instance.antt =====
-- internal/tor/instance.go and internal/tor/bridges.go: an instance, its bridges, and the values that
-- its torrc is rendered from. The configuration that an instance points to is the argument `cfg`.
pub mod Torrc
use Prim.Native.String.{◌++◌ as text_append}
use splitter.Prelude.{
  ℕ, ◌-◌, String, Bool, true, false, ◌&&◌, ◌||◌, Option, none, some, List, [], str_eq, ltb,
  if◌then◌else◌, length, ℤ, pos_part, ltb_ℤ, leb_ℤ, add64, decimal, pos,
}
use splitter.Config.Types.{Config}
use splitter.Tor.Version.{
  Version, supports_conflux, supports_http_tunnel, supports_congestion_control, supports_tls13,
  supports_sandbox, supports_happy_families, supports_post_quantum,
}
use splitter.Tor.Restart.{State, starting, bootstrapping, failed}

pub record Instance : Type 0 where
  pub id : ℕ
  pub country : String
  pub socks_port : ℤ
  pub control_port : ℤ
  pub http_port : ℤ
  pub state : State
  -- `proc` is not nil
  pub has_proc : Bool
  pub version : Version
  pub bridge_lines : List String
  pub bridge_transport : String

unfoldable pub new_instance : ℕ → String → Version → Instance
new_instance id country version = record {
  id = id;
  country = country;
  socks_port = pos 0;
  control_port = pos 0;
  http_port = pos 0;
  state = starting;
  has_proc = false;
  version = version;
  bridge_lines = [];
  bridge_transport = "";
}

pub record BridgeConfig : Type 0 where
  pub description : String
  pub transport : String
  pub lines : List String

-- A nil pointer is `none`.
pub record BridgesConfig : Type 0 where
  pub snowflake : Option BridgeConfig
  pub webtunnel : Option BridgeConfig
  pub obfs4 : Option BridgeConfig

pub data BridgeError : Type 0 where
  nil_bridges unknown_type : BridgeError

pub data Found : Type 0 where
  found : Option BridgeConfig → Found
  refused : BridgeError → Found

unfoldable pub get_bridge : BridgesConfig → String → Found
get_bridge b bridge_type =
    if str_eq bridge_type "snowflake"
    then found b.snowflake
    else if str_eq bridge_type "webtunnel"
    then found b.webtunnel
    else if str_eq bridge_type "obfs4"
    then found b.obfs4
    else if str_eq bridge_type "none" || str_eq bridge_type ""
    then found none
    else refused unknown_type

abbrev pub take_bridge : Found → Instance → Instance × Option BridgeError
take_bridge (refused e) inst = (inst, some e)
take_bridge (found none) inst = (inst, none)
take_bridge (found (some bc)) inst =
    (record inst { bridge_lines = bc.lines; bridge_transport = bc.transport }, none)

abbrev pub lookup_bridge : Option BridgesConfig → String → Found
lookup_bridge none bridge_type = refused nil_bridges
lookup_bridge (some b) bridge_type = get_bridge b bridge_type

unfoldable pub set_bridges :
    String → Option BridgesConfig → Instance → Instance × Option BridgeError
set_bridges bridge_type bridges inst =
    if str_eq bridge_type "none" || str_eq bridge_type ""
    then (inst, none)
    else take_bridge (lookup_bridge bridges bridge_type) inst

-- How `Start` ends: a file that cannot be written, a process that cannot be spawned, or a process.
pub data StartOutcome : Type 0 where
  torrc_failed data_dir_failed spawn_failed spawned : StartOutcome

-- The instance after `Start`, and whether it returned an error.
unfoldable pub start : StartOutcome → Instance → Instance × Bool
start torrc_failed inst = (inst, true)
start data_dir_failed inst = (inst, true)
start spawn_failed inst = (record inst { state = failed }, true)
start spawned inst = (record inst { state = bootstrapping; has_proc = true }, false)

-- `Stop`: the process manager's `Stop` returns nil on every path, so this one does too.
unfoldable pub stop : Instance → Instance
stop inst = record inst { state = starting }

pub record InstanceConfig : Type 0 where
  pub instance_id : ℕ
  pub country : String
  pub socks_port : ℤ
  pub control_port : ℤ
  pub http_tunnel_port : ℤ
  pub data_dir : String
  pub circuit_build_timeout : ℤ
  pub circuit_stream_timeout : ℤ
  pub max_circuit_dirtiness : ℤ
  pub new_circuit_period : ℤ
  pub learn_circuit_build_timeout : ℤ
  pub congestion_control_auto : Bool
  pub conflux_enabled : Bool
  pub post_quantum_available : Bool
  pub happy_families_aware : Bool
  pub tls13_recommended : Bool
  pub sandbox_enabled : Bool
  pub relay_enforce : String
  pub hidden_service_enabled : Bool
  pub hidden_service_dir : String
  pub hidden_service_port : ℤ
  pub connection_padding : ℤ
  pub reduced_connection_padding : ℤ
  pub safe_socks : ℤ
  pub test_socks : ℤ
  pub client_reject_internal_addresses : ℤ
  pub strict_nodes : ℤ
  pub client_only : ℤ
  pub geoip_exclude_unknown : ℤ
  pub fascist_firewall : ℤ
  pub firewall_ports : List ℤ
  pub long_lived_ports : List ℤ
  pub max_client_circuits_pending : ℤ
  pub socks_timeout : ℤ
  pub track_host_exits_expire : ℤ
  pub use_entry_guards : ℤ
  pub num_entry_guards : ℤ
  pub automap_hosts_suffixes : String
  pub warn_plaintext_ports : String
  pub reject_plaintext_ports : String
  pub keepalive_period : ℤ
  pub control_auth : String
  pub bridge_lines : List String
  pub use_bridges : Bool
  pub client_transport : String
  pub stream_isolation : Bool
  pub client_use_ipv6 : Bool

-- `intn` is `rand.Intn`, for a positive bound.
unfoldable pub randomize_dirtiness : (ℕ → ℕ) → Config → ℤ
randomize_dirtiness intn cfg =
    let max = cfg.tor.max_circuit_dirtiness in
    if leb_ℤ max (pos 10) then max else add64 (pos 10) (pos (intn (pos_part max - 10)))

abbrev with_tunnel : Instance → InstanceConfig → InstanceConfig
with_tunnel inst ic = record ic {
  http_tunnel_port =
      if ltb_ℤ (pos 0) inst.http_port && supports_http_tunnel inst.version
      then inst.http_port
      else ic.http_tunnel_port;
}

-- `join` is `filepath.Join`.
unfoldable pub build_instance_config :
    (String → String → String) → (ℕ → ℕ) → Config → Instance → InstanceConfig
build_instance_config join intn cfg inst = with_tunnel inst (record {
  instance_id = inst.id;
  country = inst.country;
  socks_port = inst.socks_port;
  control_port = inst.control_port;
  http_tunnel_port = inst.http_port;
  data_dir = join cfg.paths.temp_files (text_append "tor_data_" (decimal inst.id));
  circuit_build_timeout = cfg.tor.circuit_build_timeout;
  circuit_stream_timeout = cfg.tor.circuit_stream_timeout;
  max_circuit_dirtiness = randomize_dirtiness intn cfg;
  new_circuit_period = cfg.tor.new_circuit_period;
  learn_circuit_build_timeout = cfg.tor.learn_circuit_build_timeout;
  congestion_control_auto =
      supports_congestion_control inst.version && cfg.tor.congestion_control_auto;
  conflux_enabled = supports_conflux inst.version && cfg.tor.conflux_enabled;
  post_quantum_available = supports_post_quantum inst.version;
  happy_families_aware = supports_happy_families inst.version;
  tls13_recommended = supports_tls13 inst.version;
  sandbox_enabled = supports_sandbox inst.version && cfg.tor.sandbox;
  relay_enforce = cfg.relay.enforce;
  hidden_service_enabled = cfg.tor.hidden_service.enabled;
  hidden_service_dir = text_append cfg.tor.hidden_service.base_path (decimal inst.id);
  hidden_service_port = add64 cfg.tor.hidden_service.start_port (pos inst.id);
  connection_padding = cfg.tor.connection_padding;
  reduced_connection_padding = cfg.tor.reduced_connection_padding;
  safe_socks = cfg.tor.safe_socks;
  test_socks = cfg.tor.test_socks;
  client_reject_internal_addresses = cfg.tor.client_reject_internal_addresses;
  strict_nodes = cfg.tor.strict_nodes;
  client_only = cfg.tor.client_only;
  geoip_exclude_unknown = cfg.tor.geoip_exclude_unknown;
  fascist_firewall = cfg.tor.fascist_firewall;
  firewall_ports = cfg.tor.firewall_ports;
  long_lived_ports = cfg.tor.long_lived_ports;
  max_client_circuits_pending = cfg.tor.max_client_circuits_pending;
  socks_timeout = cfg.tor.socks_timeout;
  track_host_exits_expire = cfg.tor.track_host_exits_expire;
  use_entry_guards = cfg.tor.use_entry_guards;
  num_entry_guards = cfg.tor.num_entry_guards;
  automap_hosts_suffixes = cfg.tor.automap_hosts_suffixes;
  warn_plaintext_ports = cfg.tor.warn_plaintext_ports;
  reject_plaintext_ports = cfg.tor.reject_plaintext_ports;
  keepalive_period = cfg.tor.minimum_timeout;
  control_auth = cfg.tor.control_auth;
  bridge_lines = inst.bridge_lines;
  use_bridges = ltb 0 (length inst.bridge_lines);
  client_transport = inst.bridge_transport;
  stream_isolation = cfg.tor.stream_isolation;
  client_use_ipv6 = cfg.tor.ipv6;
})
