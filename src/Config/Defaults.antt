-- ===== src/Config/Defaults.antt =====
-- internal/config/config.go: `Defaults` and `PickUserAgent`. A field that the literal leaves out
-- has its type's zero value.
use splitter.Prelude.{
  ℕ, String, true, false, not, Option, some, [], ◌∷◌, str_eq, ltb, if◌then◌else◌, length, get_elem?,
  pos,
}
use splitter.Config.Types.{Config, UserAgentConfig}

unfoldable pub defaults : Config
defaults = record {
  instances = record {
    per_country = pos 2;
    countries = pos 6;
    max_concurrent_requests = pos 20;
    retries = pos 1000;
  };
  proxy = record {
    master = record {
      listen = "0.0.0.0";
      port = pos 63536;
      socks_port = pos 63536;
      http_port = pos 63537;
      transparent_port = pos 63538;
      client_timeout = pos 35;
      server_timeout = pos 35;
    };
    stats = record { listen = "0.0.0.0"; port = pos 63539; uri = "/splitter_status" };
    load_balance_algorithm = "roundrobin";
    haproxy_http_reuse = "never";
    include_security_headers = true;
    do_not_proxy =
        "0.0.0.0" ∷ "192.168.1.1" ∷ "192.168.2.1" ∷ "192.168.3.1" ∷ "192.168.0.1" ∷ "172.17.0.1"
        ∷ [];
  };
  relay = record { enforce = "entry" };
  tor = record {
    binary_path = "/usr/bin/tor";
    listen_addr = "0.0.0.0";
    start_socks_port = pos 4999;
    start_control_port = pos 5999;
    start_http_port = pos 5199;
    start_transport_port = pos 5099;
    start_dns_port = pos 5299;
    control_auth = "password";
    hidden_service = record {
      enabled = true;
      base_path = "/tmp/splitter/hidden_service_";
      start_port = pos 3999;
      max_streams = pos 0;
      max_streams_close_circuit = false;
      dir_group_readable = false;
      num_introduction_points = pos 3;
    };
    minimum_timeout = pos 15;
    circuit_build_timeout = pos 60;
    learn_circuit_build_timeout = pos 1;
    circuits_available_timeout = pos 5;
    circuit_stream_timeout = pos 20;
    client_only = pos 0;
    connection_padding = pos 0;
    reduced_connection_padding = pos 1;
    geoip_exclude_unknown = pos 1;
    strict_nodes = pos 1;
    fascist_firewall = pos 0;
    firewall_ports = pos 80 ∷ pos 443 ∷ [];
    long_lived_ports = pos 1 ∷ pos 2 ∷ [];
    new_circuit_period = pos 30;
    max_circuit_dirtiness = pos 15;
    max_client_circuits_pending = pos 1024;
    socks_timeout = pos 35;
    track_host_exits_expire = pos 10;
    use_entry_guards = pos 1;
    num_entry_guards = pos 1;
    safe_socks = pos 1;
    test_socks = pos 1;
    allow_non_rfc953_hostnames = pos 0;
    client_reject_internal_addresses = pos 1;
    download_extra_info = pos 0;
    optimistic_data = "auto";
    automap_hosts_suffixes = ".exit,.onion";
    warn_plaintext_ports = "21,23,25,80,109,110,143";
    reject_plaintext_ports = "";
    sandbox = false;
    stream_isolation = false;
    ipv6 = false;
    conflux_enabled = false;
    congestion_control_auto = false;
    circuit_fingerprinting_resistance = false;
  };
  privoxy = record {
    binary_path = "/usr/sbin/privoxy";
    listen = "0.0.0.0";
    start_port = pos 6999;
    timeout = pos 35;
    config_file_prefix = "/tmp/splitter/privoxy_splitter_config_";
  };
  haproxy = record {
    binary_path = "/usr/sbin/haproxy";
    config_file = "/tmp/splitter/splitter_master_proxy.cfg";
  };
  country = record {
    selected = "RANDOM";
    accepted =
        "{AU}" ∷ "{AT}" ∷ "{BE}" ∷ "{BG}" ∷ "{CA}" ∷ "{CZ}" ∷ "{DK}" ∷ "{FI}" ∷ "{FR}" ∷ "{DE}"
        ∷ "{HU}" ∷ "{IS}" ∷ "{LV}" ∷ "{LT}" ∷ "{LU}" ∷ "{MD}" ∷ "{NL}" ∷ "{NO}" ∷ "{PA}" ∷ "{PL}"
        ∷ "{RO}" ∷ "{RU}" ∷ "{SC}" ∷ "{SG}" ∷ "{SK}" ∷ "{ES}" ∷ "{SE}" ∷ "{CH}" ∷ "{TR}" ∷ "{UA}"
        ∷ "{GB}" ∷ "{US}" ∷ [];
    blacklisted = [];
    rotation = record { enabled = true; interval = pos 120; total_to_change = pos 10 };
    auto_countries = false;
  };
  health_check = record {
    url = "https://www.google.com/";
    interval = pos 12;
    max_fail = pos 1;
    minimum_success = pos 1;
  };
  user_agent = record {
    tor_browser = "Mozilla/5.0 (Windows NT 10.0; rv:128.0) Gecko/20100101 Firefox/128.0";
    user_agents = [];
    default = "Mozilla/5.0 (Windows NT 10.0; rv:128.0) Gecko/20100101 Firefox/128.0";
  };
  logging = record {
    enabled = false;
    dir = "/tmp/splitter";
    name_prefix = "tor_log_";
    level = "INFO";
    format = "text";
  };
  paths = record { temp_files = "/tmp/splitter"; proxychains_file = "" };
  dns = record { dist_listen = "0.0.0.0"; dist_port = pos 5353; tor_listen = "0.0.0.0" };
  exit_reputation = record { enabled = false };
  profile = "";
  proxy_mode = "native";
  bridge_type = "none";
  verbose = false;
  log = false;
  log_level = "";
}

-- `rand.Intn` on a positive bound is the argument `intn`; the indexed read is of the list's length at most.
unfoldable pub pick_user_agent : (ℕ → ℕ) → UserAgentConfig → Option String
pick_user_agent intn u =
    if ltb 0 (length u.user_agents)
    then get_elem? u.user_agents (intn (length u.user_agents))
    else if not (str_eq u.default "")
    then some u.default
    else some u.tor_browser
