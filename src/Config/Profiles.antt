-- ===== src/Config/Profiles.antt =====
-- internal/config/profiles.go: the entries of profiles.yaml and how one is laid over a configuration.
-- A nil pointer is `none`; an assignment under a nil test is `or_else`.
use splitter.Prelude.{String, Bool, Option, none, some, ℤ}
use splitter.Config.Types.{Config}

pub record ProfileInstances : Type 0 where
  pub per_country : Option ℤ
  pub countries : Option ℤ
  pub max_concurrent_requests : Option ℤ
  pub retries : Option ℤ

pub record ProfileRelay : Type 0 where
  pub enforce : Option String

pub record ProfileProxy : Type 0 where
  pub load_balance_algorithm : Option String
  pub haproxy_http_reuse : Option String

pub record ProfileTor : Type 0 where
  pub max_circuit_dirtiness : Option ℤ
  pub connection_padding : Option ℤ
  pub use_entry_guards : Option ℤ
  pub reduced_connection_padding : Option ℤ
  pub stream_isolation : Option Bool
  pub ipv6 : Option Bool
  pub conflux_enabled : Option Bool
  pub congestion_control_auto : Option Bool
  pub sandbox : Option Bool
  pub circuit_fingerprinting_resistance : Option Bool

pub record ProfileLogging : Type 0 where
  pub enabled : Option Bool
  pub level : Option String

pub record ProfileCountry : Type 0 where
  pub rotation_interval : Option ℤ
  pub total_to_change : Option ℤ

pub record ProfileHealthCheck : Type 0 where
  pub exit_reputation : Option Bool

pub record ProfileEntry : Type 0 where
  pub description : String
  pub instances : Option ProfileInstances
  pub relay : Option ProfileRelay
  pub proxy : Option ProfileProxy
  pub tor : Option ProfileTor
  pub logging : Option ProfileLogging
  pub country : Option ProfileCountry
  pub health_check : Option ProfileHealthCheck

abbrev pub or_else {ℓ} : {A : Type ℓ} → Option A → A → A
or_else none old = old
or_else (some new) old = new

unfoldable pub apply_instances : Option ProfileInstances → Config → Config
apply_instances none c = c
apply_instances (some e) c = record c {
  instances = record c.instances {
    per_country = or_else e.per_country c.instances.per_country;
    countries = or_else e.countries c.instances.countries;
    max_concurrent_requests = or_else e.max_concurrent_requests c.instances.max_concurrent_requests;
    retries = or_else e.retries c.instances.retries;
  };
}

unfoldable pub apply_relay : Option ProfileRelay → Config → Config
apply_relay none c = c
apply_relay (some e) c = record c {
  relay = record c.relay { enforce = or_else e.enforce c.relay.enforce };
}

unfoldable pub apply_proxy : Option ProfileProxy → Config → Config
apply_proxy none c = c
apply_proxy (some e) c = record c {
  proxy = record c.proxy {
    load_balance_algorithm = or_else e.load_balance_algorithm c.proxy.load_balance_algorithm;
    haproxy_http_reuse = or_else e.haproxy_http_reuse c.proxy.haproxy_http_reuse;
  };
}

unfoldable pub apply_tor : Option ProfileTor → Config → Config
apply_tor none c = c
apply_tor (some e) c = record c {
  tor = record c.tor {
    max_circuit_dirtiness = or_else e.max_circuit_dirtiness c.tor.max_circuit_dirtiness;
    connection_padding = or_else e.connection_padding c.tor.connection_padding;
    use_entry_guards = or_else e.use_entry_guards c.tor.use_entry_guards;
    reduced_connection_padding =
        or_else e.reduced_connection_padding c.tor.reduced_connection_padding;
    stream_isolation = or_else e.stream_isolation c.tor.stream_isolation;
    ipv6 = or_else e.ipv6 c.tor.ipv6;
    conflux_enabled = or_else e.conflux_enabled c.tor.conflux_enabled;
    congestion_control_auto = or_else e.congestion_control_auto c.tor.congestion_control_auto;
    sandbox = or_else e.sandbox c.tor.sandbox;
    circuit_fingerprinting_resistance =
        or_else e.circuit_fingerprinting_resistance c.tor.circuit_fingerprinting_resistance;
  };
}

unfoldable pub apply_logging : Option ProfileLogging → Config → Config
apply_logging none c = c
apply_logging (some e) c = record c {
  logging = record c.logging {
    enabled = or_else e.enabled c.logging.enabled;
    level = or_else e.level c.logging.level;
  };
}

unfoldable pub apply_country : Option ProfileCountry → Config → Config
apply_country none c = c
apply_country (some e) c = record c {
  country = record c.country {
    rotation = record c.country.rotation {
      interval = or_else e.rotation_interval c.country.rotation.interval;
      total_to_change = or_else e.total_to_change c.country.rotation.total_to_change;
    };
  };
}

unfoldable pub apply_health_check : Option ProfileHealthCheck → Config → Config
apply_health_check none c = c
apply_health_check (some e) c = record c {
  exit_reputation = record c.exit_reputation {
    enabled = or_else e.exit_reputation c.exit_reputation.enabled;
  };
}

-- The assignments of `applyProfile`, once the entry is found.
unfoldable pub apply_entry : ProfileEntry → Config → Config
unfolding apply_instances apply_relay apply_proxy apply_tor apply_logging apply_country
    apply_health_check
apply_entry entry c = apply_health_check entry.health_check (
    apply_country entry.country (
      apply_logging entry.logging (
        apply_tor entry.tor
          (apply_proxy entry.proxy (apply_relay entry.relay (apply_instances entry.instances c))))))
