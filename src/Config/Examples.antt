-- ===== src/Config/Examples.antt =====
-- The configuration on concrete inputs.
use splitter.Prelude.{
  ◌≡◌, refl, ◌↔◌, true, none, some, [], ◌∷◌, str_eq, add64, mul64, to_upper, to_lower, trim_space,
  strip_prefix, ends_with, split_once, strconv_atoi, pos,
}
use splitter.Config.Types.{Config}
use splitter.Config.Defaults.{defaults}
use splitter.Config.Env.{
  apply_env_overrides, apply_env_vars, apply_env_var, setter_for, upper_prefix, env_mappings, atoi,
  parse_bool,
}
use splitter.Config.Validate.{validate, validate_ports, in_set, check_numbers, check_range}
use splitter.Config.Validate.Accepts.{IsValid, validate_iff, with_huge_counts, validate_overflow}
use splitter.Config.Load.{LoadOptions, World, missing, ok, load, prepare, finish_load}
use splitter.Config.Load.Layers.{LogAgrees, load-IsValid, without_flags}

-- No file is there, and two variables are set.
abbrev bare_world : World
bare_world = record {
  read_file = λ path. missing;
  environ = "HOME=/root" ∷ "SPLITTER_INSTANCES=3" ∷ [];
  decode_config = λ text c. some c;
  decode_profiles = λ text. none;
  decode_user_agents = λ text. none;
}

abbrev three_each : Config
three_each = record defaults { instances = record defaults.instances { per_country = pos 3 } }

defaults-valid : validate defaults ≡ none
unfolding validate defaults in_set to_lower check_numbers check_range validate_ports mul64 add64
defaults-valid = refl

env_is_applied :
    apply_env_overrides defaults "splitter"
      ("SPLITTER_PROXY_STATS_PORT= 7" ∷ "SPLITTER_LOG=Yes " ∷ [])
    ≡ record defaults {
      proxy = record defaults.proxy { stats = record defaults.proxy.stats { port = pos 0 } };
      logging = record defaults.logging { enabled = true };
      log = true;
    }
unfolding apply_env_overrides apply_env_vars apply_env_var split_once setter_for strip_prefix
    upper_prefix ends_with to_upper env_mappings atoi parse_bool strconv_atoi to_lower trim_space
env_is_applied = refl

loads : load bare_world (without_flags "" "" "") ≡ ok three_each
unfolding load prepare finish_load without_flags validate defaults in_set check_numbers check_range
    validate_ports mul64 add64 apply_env_overrides apply_env_vars apply_env_var split_once
    setter_for strip_prefix upper_prefix ends_with to_upper env_mappings atoi parse_bool
    strconv_atoi to_lower trim_space
loads = refl

validate_iff_example : (validate defaults ≡ none) ↔ IsValid defaults
validate_iff_example = validate_iff defaults

validate_overflow_example : validate (with_huge_counts defaults) ≡ none
validate_overflow_example = validate_overflow defaults defaults-valid

load-IsValid_example : IsValid three_each × LogAgrees three_each
load-IsValid_example = load-IsValid bare_world (without_flags "" "" "") loads

-- The command line sets the relays to enforce.
abbrev plain : LoadOptions
plain = record {
  config_path = "";
  profiles_path = "";
  user_agents_path = "";
  env_prefix = "SPLITTER_";
  flags = some (record {
    changed = λ name. str_eq name "relay-enforce";
    get_int = λ name. none;
    get_string = λ name. some "exit";
    get_bool = λ name. none;
  });
}

abbrev three_exits : Config
three_exits = record three_each { relay = record three_each.relay { enforce = "exit" } }
