-- ===== src/Config/Env.antt =====
-- internal/config/env.go: the environment variables that override the configuration.
use Prim.Native.Char.{Char}
use Prim.Native.String.{◌++◌ as text_append}
use splitter.Prelude.{
  String, Bool, ◌||◌, Option, none, some, List, [], ◌∷◌, str_eq, if◌then◌else◌, ℤ, to_upper,
  to_lower, trim_space, strip_prefix, ends_with, split_once, value, strconv_atoi,
}
use splitter.Config.Types.{Config}

-- `v, _ := strconv.Atoi(s)`
unfoldable pub atoi : String → ℤ
atoi s = value (strconv_atoi s)

unfoldable pub parse_bool : String → Bool
parse_bool s =
    let t = to_lower (trim_space s) in
    str_eq t "1" || (str_eq t "true" || (str_eq t "yes" || str_eq t "on"))

abbrev pub EnvSetter : Type 0
EnvSetter = Config → String → Config

unfoldable pub env_mappings : List (String × EnvSetter)
env_mappings =
    ("INSTANCES", λ c v. record c { instances = record c.instances { per_country = atoi v } })
    ∷ (
      "INSTANCES_PER_COUNTRY",
      λ c v. record c { instances = record c.instances { per_country = atoi v } },
    )
    ∷ (
      "INSTANCES_COUNTRIES",
      λ c v. record c { instances = record c.instances { countries = atoi v } },
    )
    ∷ (
      "INSTANCES_MAX_CONCURRENT_REQUESTS",
      λ c v. record c { instances = record c.instances { max_concurrent_requests = atoi v } },
    )
    ∷ ("INSTANCES_RETRIES", λ c v. record c { instances = record c.instances { retries = atoi v } })
    ∷ ("COUNTRIES", λ c v. record c { instances = record c.instances { countries = atoi v } })
    ∷ ("RELAY_ENFORCE", λ c v. record c { relay = record c.relay { enforce = v } })
    ∷ ("PROXY_MODE", λ c v. record c { proxy_mode = v })
    ∷ (
      "PROXY_LOAD_BALANCE_ALGORITHM",
      λ c v. record c { proxy = record c.proxy { load_balance_algorithm = v } },
    )
    ∷ (
      "PROXY_MASTER_LISTEN",
      λ c v. record c { proxy = record c.proxy { master = record c.proxy.master { listen = v } } },
    )
    ∷ (
      "PROXY_MASTER_PORT",
      λ c v. record c {
        proxy = record c.proxy { master = record c.proxy.master { port = atoi v } };
      },
    )
    ∷ (
      "PROXY_MASTER_SOCKS_PORT",
      λ c v. record c {
        proxy = record c.proxy { master = record c.proxy.master { socks_port = atoi v } };
      },
    )
    ∷ (
      "PROXY_MASTER_HTTP_PORT",
      λ c v. record c {
        proxy = record c.proxy { master = record c.proxy.master { http_port = atoi v } };
      },
    )
    ∷ (
      "PROXY_MASTER_TRANSPARENT_PORT",
      λ c v. record c {
        proxy = record c.proxy { master = record c.proxy.master { transparent_port = atoi v } };
      },
    )
    ∷ (
      "PROXY_MASTER_CLIENT_TIMEOUT",
      λ c v. record c {
        proxy = record c.proxy { master = record c.proxy.master { client_timeout = atoi v } };
      },
    )
    ∷ (
      "PROXY_MASTER_SERVER_TIMEOUT",
      λ c v. record c {
        proxy = record c.proxy { master = record c.proxy.master { server_timeout = atoi v } };
      },
    )
    ∷ (
      "PROXY_STATS_LISTEN",
      λ c v. record c { proxy = record c.proxy { stats = record c.proxy.stats { listen = v } } },
    )
    ∷ (
      "PROXY_STATS_PORT",
      λ c v. record c { proxy = record c.proxy { stats = record c.proxy.stats { port = atoi v } } },
    )
    ∷ (
      "PROXY_STATS_URI",
      λ c v. record c { proxy = record c.proxy { stats = record c.proxy.stats { uri = v } } },
    )
    ∷ (
      "PROXY_HAPROXY_HTTP_REUSE",
      λ c v. record c { proxy = record c.proxy { haproxy_http_reuse = v } },
    )
    ∷ (
      "PROXY_INCLUDE_SECURITY_HEADERS",
      λ c v. record c { proxy = record c.proxy { include_security_headers = parse_bool v } },
    )
    ∷ ("TOR_BINARY_PATH", λ c v. record c { tor = record c.tor { binary_path = v } })
    ∷ ("TOR_LISTEN_ADDR", λ c v. record c { tor = record c.tor { listen_addr = v } })
    ∷ ("TOR_START_SOCKS_PORT", λ c v. record c { tor = record c.tor { start_socks_port = atoi v } })
    ∷ (
      "TOR_START_CONTROL_PORT",
      λ c v. record c { tor = record c.tor { start_control_port = atoi v } },
    )
    ∷ ("TOR_START_HTTP_PORT", λ c v. record c { tor = record c.tor { start_http_port = atoi v } })
    ∷ (
      "TOR_START_TRANSPORT_PORT",
      λ c v. record c { tor = record c.tor { start_transport_port = atoi v } },
    )
    ∷ ("TOR_START_DNS_PORT", λ c v. record c { tor = record c.tor { start_dns_port = atoi v } })
    ∷ ("TOR_CONTROL_AUTH", λ c v. record c { tor = record c.tor { control_auth = v } })
    ∷ ("TOR_MINIMUM_TIMEOUT", λ c v. record c { tor = record c.tor { minimum_timeout = atoi v } })
    ∷ (
      "TOR_CIRCUIT_BUILD_TIMEOUT",
      λ c v. record c { tor = record c.tor { circuit_build_timeout = atoi v } },
    )
    ∷ (
      "TOR_LEARN_CIRCUIT_BUILD_TIMEOUT",
      λ c v. record c { tor = record c.tor { learn_circuit_build_timeout = atoi v } },
    )
    ∷ (
      "TOR_CIRCUITS_AVAILABLE_TIMEOUT",
      λ c v. record c { tor = record c.tor { circuits_available_timeout = atoi v } },
    )
    ∷ (
      "TOR_CIRCUIT_STREAM_TIMEOUT",
      λ c v. record c { tor = record c.tor { circuit_stream_timeout = atoi v } },
    )
    ∷ ("TOR_CLIENT_ONLY", λ c v. record c { tor = record c.tor { client_only = atoi v } })
    ∷ (
      "TOR_CONNECTION_PADDING",
      λ c v. record c { tor = record c.tor { connection_padding = atoi v } },
    )
    ∷ (
      "TOR_REDUCED_CONNECTION_PADDING",
      λ c v. record c { tor = record c.tor { reduced_connection_padding = atoi v } },
    )
    ∷ (
      "TOR_GEOIP_EXCLUDE_UNKNOWN",
      λ c v. record c { tor = record c.tor { geoip_exclude_unknown = atoi v } },
    )
    ∷ ("TOR_STRICT_NODES", λ c v. record c { tor = record c.tor { strict_nodes = atoi v } })
    ∷ ("TOR_FASCIST_FIREWALL", λ c v. record c { tor = record c.tor { fascist_firewall = atoi v } })
    ∷ (
      "TOR_NEW_CIRCUIT_PERIOD",
      λ c v. record c { tor = record c.tor { new_circuit_period = atoi v } },
    )
    ∷ (
      "TOR_MAX_CIRCUIT_DIRTINESS",
      λ c v. record c { tor = record c.tor { max_circuit_dirtiness = atoi v } },
    )
    ∷ (
      "TOR_MAX_CLIENT_CIRCUITS_PENDING",
      λ c v. record c { tor = record c.tor { max_client_circuits_pending = atoi v } },
    )
    ∷ ("TOR_SOCKS_TIMEOUT", λ c v. record c { tor = record c.tor { socks_timeout = atoi v } })
    ∷ (
      "TOR_TRACK_HOST_EXITS_EXPIRE",
      λ c v. record c { tor = record c.tor { track_host_exits_expire = atoi v } },
    )
    ∷ ("TOR_USE_ENTRY_GUARDS", λ c v. record c { tor = record c.tor { use_entry_guards = atoi v } })
    ∷ ("TOR_NUM_ENTRY_GUARDS", λ c v. record c { tor = record c.tor { num_entry_guards = atoi v } })
    ∷ ("TOR_SAFE_SOCKS", λ c v. record c { tor = record c.tor { safe_socks = atoi v } })
    ∷ ("TOR_TEST_SOCKS", λ c v. record c { tor = record c.tor { test_socks = atoi v } })
    ∷ ("TOR_OPTIMISTIC_DATA", λ c v. record c { tor = record c.tor { optimistic_data = v } })
    ∷ (
      "TOR_AUTOMAP_HOSTS_SUFFIXES",
      λ c v. record c { tor = record c.tor { automap_hosts_suffixes = v } },
    )
    ∷ (
      "TOR_WARN_PLAINTEXT_PORTS",
      λ c v. record c { tor = record c.tor { warn_plaintext_ports = v } },
    )
    ∷ (
      "TOR_REJECT_PLAINTEXT_PORTS",
      λ c v. record c { tor = record c.tor { reject_plaintext_ports = v } },
    )
    ∷ (
      "TOR_STREAM_ISOLATION",
      λ c v. record c { tor = record c.tor { stream_isolation = parse_bool v } },
    )
    ∷ ("TOR_IPV6", λ c v. record c { tor = record c.tor { ipv6 = parse_bool v } })
    ∷ (
      "TOR_CONFLUX_ENABLED",
      λ c v. record c { tor = record c.tor { conflux_enabled = parse_bool v } },
    )
    ∷ (
      "TOR_CONGESTION_CONTROL_AUTO",
      λ c v. record c { tor = record c.tor { congestion_control_auto = parse_bool v } },
    )
    ∷ (
      "TOR_CIRCUIT_FINGERPRINTING_RESISTANCE",
      λ c v. record c { tor = record c.tor { circuit_fingerprinting_resistance = parse_bool v } },
    )
    ∷ ("TOR_SANDBOX", λ c v. record c { tor = record c.tor { sandbox = parse_bool v } })
    ∷ ("PRIVOXY_BINARY_PATH", λ c v. record c { privoxy = record c.privoxy { binary_path = v } })
    ∷ ("PRIVOXY_LISTEN", λ c v. record c { privoxy = record c.privoxy { listen = v } })
    ∷ ("PRIVOXY_START_PORT", λ c v. record c { privoxy = record c.privoxy { start_port = atoi v } })
    ∷ ("PRIVOXY_TIMEOUT", λ c v. record c { privoxy = record c.privoxy { timeout = atoi v } })
    ∷ (
      "PRIVOXY_CONFIG_FILE_PREFIX",
      λ c v. record c { privoxy = record c.privoxy { config_file_prefix = v } },
    )
    ∷ ("HAPROXY_BINARY_PATH", λ c v. record c { haproxy = record c.haproxy { binary_path = v } })
    ∷ ("HAPROXY_CONFIG_FILE", λ c v. record c { haproxy = record c.haproxy { config_file = v } })
    ∷ ("COUNTRY_SELECTED", λ c v. record c { country = record c.country { selected = v } })
    ∷ (
      "COUNTRY_ROTATION_ENABLED",
      λ c v. record c {
        country = record c.country {
          rotation = record c.country.rotation { enabled = parse_bool v };
        };
      },
    )
    ∷ (
      "COUNTRY_ROTATION_INTERVAL",
      λ c v. record c {
        country = record c.country { rotation = record c.country.rotation { interval = atoi v } };
      },
    )
    ∷ (
      "COUNTRY_ROTATION_TOTAL_TO_CHANGE",
      λ c v. record c {
        country = record c.country {
          rotation = record c.country.rotation { total_to_change = atoi v };
        };
      },
    )
    ∷ (
      "COUNTRY_AUTO_COUNTRIES",
      λ c v. record c { country = record c.country { auto_countries = parse_bool v } },
    )
    ∷ ("HEALTH_CHECK_URL", λ c v. record c { health_check = record c.health_check { url = v } })
    ∷ (
      "HEALTH_CHECK_INTERVAL",
      λ c v. record c { health_check = record c.health_check { interval = atoi v } },
    )
    ∷ (
      "HEALTH_CHECK_MAX_FAIL",
      λ c v. record c { health_check = record c.health_check { max_fail = atoi v } },
    )
    ∷ (
      "HEALTH_CHECK_MINIMUM_SUCCESS",
      λ c v. record c { health_check = record c.health_check { minimum_success = atoi v } },
    )
    ∷ (
      "USER_AGENT_TOR_BROWSER",
      λ c v. record c { user_agent = record c.user_agent { tor_browser = v } },
    )
    ∷ ("USER_AGENT_DEFAULT", λ c v. record c { user_agent = record c.user_agent { default = v } })
    ∷ (
      "LOG",
      λ c v. record c { logging = record c.logging { enabled = parse_bool v }; log = parse_bool v },
    )
    ∷ ("LOG_LEVEL", λ c v. record c { logging = record c.logging { level = v }; log_level = v })
    ∷ ("LOGGING_ENABLED", λ c v. record c { logging = record c.logging { enabled = parse_bool v } })
    ∷ ("LOGGING_DIR", λ c v. record c { logging = record c.logging { dir = v } })
    ∷ ("LOGGING_LEVEL", λ c v. record c { logging = record c.logging { level = v } })
    ∷ ("LOGGING_FORMAT", λ c v. record c { logging = record c.logging { format = v } })
    ∷ ("PATHS_TEMP_FILES", λ c v. record c { paths = record c.paths { temp_files = v } })
    ∷ (
      "PATHS_PROXYCHAINS_FILE",
      λ c v. record c { paths = record c.paths { proxychains_file = v } },
    )
    ∷ ("DNS_DIST_LISTEN", λ c v. record c { dns = record c.dns { dist_listen = v } })
    ∷ ("DNS_DIST_PORT", λ c v. record c { dns = record c.dns { dist_port = atoi v } })
    ∷ ("DNS_TOR_LISTEN", λ c v. record c { dns = record c.dns { tor_listen = v } })
    ∷ (
      "EXIT_REPUTATION",
      λ c v. record c { exit_reputation = record c.exit_reputation { enabled = parse_bool v } },
    )
    ∷ ("PROFILE", λ c v. record c { profile = v })
    ∷ ("BRIDGE_TYPE", λ c v. record c { bridge_type = v })
    ∷ ("VERBOSE", λ c v. record c { verbose = parse_bool v })
    ∷ []

-- `setter, ok := envMappings[suffix]`
abbrev pub find_setter : String → List (String × EnvSetter) → Option EnvSetter
find_setter k [] = none
find_setter k ((j, f) ∷ m) = if str_eq j k then some f else find_setter k m

abbrev pub equals : Char
equals = "="

abbrev pub underscore : Char
underscore = "_"

unfoldable pub upper_prefix : String → String
upper_prefix prefix =
    let up = to_upper prefix in if ends_with underscore up then up else text_append up "_"

-- The setter for a key, if the key has the prefix and a known suffix.
unfoldable pub setter_for : String → String → Option EnvSetter
setter_for prefix key = elim (strip_prefix prefix key) [
  | none ↦ none
  | some suffix ↦ find_setter suffix env_mappings
]

abbrev pub call_setter : Option EnvSetter → Config → String → Config
call_setter none c text = c
call_setter (some setter) c text = setter c text

-- One round of the loop, on the key and the value of a variable that has the form `KEY=VALUE`.
abbrev pub apply_pair : String → Config → Option (String × String) → Config
apply_pair prefix c none = c
apply_pair prefix c (some (key, text)) = call_setter (setter_for prefix key) c text

unfoldable pub apply_env_var : String → Config → String → Config
apply_env_var prefix c var = apply_pair prefix c (split_once equals var)

-- `applyEnvOverrides` over the variables in the order of `os.Environ`. Its list of errors stays empty.
unfoldable pub apply_env_vars : String → Config → List String → Config
apply_env_vars prefix c [] = c
apply_env_vars prefix c (v ∷ vs) = apply_env_vars prefix (apply_env_var prefix c v) vs

unfoldable pub apply_env_overrides : Config → String → List String → Config
apply_env_overrides c prefix environ = apply_env_vars (upper_prefix prefix) c environ
