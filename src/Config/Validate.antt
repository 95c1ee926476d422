-- ===== src/Config/Validate.antt =====
-- internal/config/validate.go.
pub mod Accepts
use splitter.Prelude.{
  String, Bool, false, not, ◌&&◌, ◌||◌, Option, none, some, List, [], ◌∷◌, str_eq, if◌then◌else◌, ℤ,
  ltb_ℤ, leb_ℤ, add64, mul64, to_lower, pos,
}
use splitter.Config.Types.{Config}

-- The check that failed; a port is named as the message names it.
pub data Violation : Type 0 where
  per_country countries relay_enforce proxy_mode bridge_type profile : Violation
  log_level logging_level port_range : Violation
  port : String → Violation

unfoldable pub in_set : String → List String → Bool
in_set val [] = false
in_set val (v ∷ valid) = str_eq val v || in_set val valid

abbrev pub relay_modes : List String
relay_modes = "entry" ∷ "exit" ∷ "speed" ∷ []

abbrev pub proxy_modes : List String
proxy_modes = "native" ∷ "legacy" ∷ []

abbrev pub bridge_types : List String
bridge_types = "snowflake" ∷ "webtunnel" ∷ "obfs4" ∷ "none" ∷ []

abbrev pub profile_names : List String
profile_names = "stealth" ∷ "balanced" ∷ "streaming" ∷ "pentest" ∷ []

abbrev pub levels : List String
levels = "debug" ∷ "info" ∷ "warn" ∷ "error" ∷ []

abbrev pub last_port : ℤ
last_port = pos 65535

abbrev pub ports : Config → List (String × ℤ)
ports cfg =
    ("proxy.master.port", cfg.proxy.master.port)
    ∷ ("proxy.master.socks_port", cfg.proxy.master.socks_port)
    ∷ ("proxy.master.http_port", cfg.proxy.master.http_port)
    ∷ ("proxy.master.transparent_port", cfg.proxy.master.transparent_port)
    ∷ ("proxy.stats.port", cfg.proxy.stats.port)
    ∷ ("tor.start_socks_port", cfg.tor.start_socks_port)
    ∷ ("tor.start_control_port", cfg.tor.start_control_port)
    ∷ ("tor.start_http_port", cfg.tor.start_http_port)
    ∷ ("tor.start_transport_port", cfg.tor.start_transport_port)
    ∷ ("tor.start_dns_port", cfg.tor.start_dns_port)
    ∷ ("tor.hidden_service.start_port", cfg.tor.hidden_service.start_port)
    ∷ ("privoxy.start_port", cfg.privoxy.start_port)
    ∷ ("dns.dist_port", cfg.dns.dist_port)
    ∷ []

-- The loop of `validatePorts`; `none` is the nil error.
unfoldable pub check_ports : List (String × ℤ) → Option Violation
check_ports [] = none
check_ports ((name, val) ∷ rest) =
    let next = check_ports rest in
    if ltb_ℤ val (pos 0) || ltb_ℤ last_port val then some (port name) else next

unfoldable pub validate_ports : Config → Option Violation
unfolding check_ports
validate_ports cfg = check_ports (ports cfg)

unfoldable pub check_range : Config → Option Violation
check_range cfg =
    let total_ports = mul64 cfg.instances.per_country cfg.instances.countries in
    let max_port = add64 cfg.tor.start_socks_port total_ports in
    if ltb_ℤ last_port max_port then some port_range else none

-- What stands below the checks of the words: the ports, then the range.
unfoldable pub check_numbers : Config → Option Violation
check_numbers cfg = elim (validate_ports cfg) [ some e ↦ some e | none ↦ check_range cfg ]

unfoldable pub validate : Config → Option Violation
validate cfg =
    if leb_ℤ cfg.instances.per_country (pos 0)
    then some per_country
    else if leb_ℤ cfg.instances.countries (pos 0)
    then some countries
    else if not (in_set cfg.relay.enforce relay_modes)
    then some relay_enforce
    else if not (in_set cfg.proxy_mode proxy_modes)
    then some proxy_mode
    else if not (in_set cfg.bridge_type bridge_types)
    then some bridge_type
    else if not (str_eq cfg.profile "") && not (in_set cfg.profile profile_names)
    then some profile
    else if not (str_eq cfg.log_level "") && not (in_set (to_lower cfg.log_level) levels)
    then some log_level
    else if not (in_set (to_lower cfg.logging.level) levels)
    then some logging_level
    else check_numbers cfg
