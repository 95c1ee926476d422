-- ===== src/Tor/Manager/Collision.antt =====
-- What `Validate` does not look at: whether the port ranges of the instances meet.
use splitter.Prelude.{ℕ, String, ◌≡◌, true, none}
use splitter.Config.Types.{Config}
use splitter.Config.Validate.{validate}
use splitter.Config.Validate.Accepts.{IsValid, validate_sound, validate_complete}
use splitter.Tor.Version.{Version, supports_http_tunnel}
use splitter.Tor.Manager.{make_instance}

-- The HTTP ports start where the SOCKS ports start.
unfoldable pub with_one_range : Config → Config
with_one_range cfg = record cfg {
  tor = record cfg.tor { start_http_port = cfg.tor.start_socks_port };
}

one_range-IsValid : (cfg : Config) → IsValid cfg → IsValid (with_one_range cfg)
unfolding with_one_range
one_range-IsValid cfg v = record {
  per_country = v.per_country;
  countries = v.countries;
  enforce = v.enforce;
  proxy_mode = v.proxy_mode;
  bridge_type = v.bridge_type;
  profile = v.profile;
  log_level = v.log_level;
  logging_level = v.logging_level;
  port_numbers =
      let p = v.port_numbers in
      (p.0, p.1, p.2, p.3, p.4, p.5, p.6, p.5, p.8, p.9, p.10, p.11, p.12);
  range = v.range;
}

-- A valid configuration stays valid when the HTTP ports start at the first SOCKS port; with a version that
-- has the HTTP tunnel, every instance is then given one port for both listeners.
pub ports_may_collide :
    (cfg : Config) (version : Version)
    → validate cfg ≡ none
    → supports_http_tunnel version ≡ true
    → (validate (with_one_range cfg) ≡ none)
      × ((country : String) (k : ℕ)
          → let inst = make_instance (with_one_range cfg) version country k in
            inst.http_port ≡ inst.socks_port)
ports_may_collide cfg version valid tunnel = (
  validate_complete (with_one_range cfg) (one_range-IsValid cfg (validate_sound cfg valid)),
  λ country k. unfold make_instance with_one_range in rw tunnel,
)
