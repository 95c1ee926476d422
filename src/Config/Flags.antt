-- ===== src/Config/Flags.antt =====
-- internal/config/loader.go: `FlagReader` and `applyFlags`.
use splitter.Prelude.{String, Bool, Option, none, some, if◌then◌else◌, ℤ}
use splitter.Config.Types.{Config}

-- The flags of the command line. A getter's error is `none`.
pub record FlagReader : Type 0 where
  pub changed : String → Bool
  pub get_int : String → Option ℤ
  pub get_string : String → Option String
  pub get_bool : String → Option Bool

-- `if v, err := get(name); err == nil { set }`
abbrev pub assign {ℓ} : {A : Type ℓ} → Option A → (A → Config → Config) → Config → Config
assign none set c = c
assign (some v) set c = set v c

-- One block of `applyFlags`.
abbrev pub on_flag {ℓ} :
    {A : Type ℓ}
    → FlagReader
    → String
    → (String → Option A)
    → (A → Config → Config)
    → Config
    → Config
on_flag flags name get set c = if flags.changed name then assign (get name) set c else c

abbrev pub set_instances : ℤ → Config → Config
set_instances v c = record c { instances = record c.instances { per_country = v } }

abbrev pub set_countries : ℤ → Config → Config
set_countries v c = record c { instances = record c.instances { countries = v } }

abbrev pub set_relay_enforce : String → Config → Config
set_relay_enforce v c = record c { relay = record c.relay { enforce = v } }

abbrev pub set_profile : String → Config → Config
set_profile v c = record c { profile = v }

abbrev pub set_proxy_mode : String → Config → Config
set_proxy_mode v c = record c { proxy_mode = v }

abbrev pub set_bridge_type : String → Config → Config
set_bridge_type v c = record c { bridge_type = v }

abbrev pub set_verbose : Bool → Config → Config
set_verbose v c = record c { verbose = v }

abbrev pub set_log : Bool → Config → Config
set_log v c = record c { log = v }

abbrev pub set_log_level : String → Config → Config
set_log_level v c = record c { log_level = v }

abbrev pub set_auto_countries : Bool → Config → Config
set_auto_countries v c = record c { country = record c.country { auto_countries = v } }

abbrev pub set_stream_isolation : Bool → Config → Config
set_stream_isolation v c = record c { tor = record c.tor { stream_isolation = v } }

abbrev pub set_ipv6 : Bool → Config → Config
set_ipv6 v c = record c { tor = record c.tor { ipv6 = v } }

abbrev pub set_exit_reputation : Bool → Config → Config
set_exit_reputation v c = record c { exit_reputation = record c.exit_reputation { enabled = v } }

unfoldable pub apply_flags : FlagReader → Config → Config
apply_flags flags c = on_flag flags "exit-reputation" flags.get_bool set_exit_reputation (
    on_flag flags "ipv6" flags.get_bool set_ipv6 (
      on_flag flags "stream-isolation" flags.get_bool set_stream_isolation (
        on_flag flags "auto-countries" flags.get_bool set_auto_countries (
          on_flag flags "log-level" flags.get_string set_log_level (
            on_flag flags "log" flags.get_bool set_log (
              on_flag flags "verbose" flags.get_bool set_verbose (
                on_flag flags "bridge-type" flags.get_string set_bridge_type (
                  on_flag flags "proxy-mode" flags.get_string set_proxy_mode (
                    on_flag flags "profile" flags.get_string set_profile (
                      on_flag flags "relay-enforce" flags.get_string set_relay_enforce (
                        on_flag flags "countries" flags.get_int set_countries
                          (on_flag flags "instances" flags.get_int set_instances c))))))))))))
