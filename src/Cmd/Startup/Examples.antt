-- ===== src/Cmd/Startup/Examples.antt =====
-- cmd/run.go: a run on a concrete world.
use splitter.Prelude.{
  ◌≡◌, refl, true, false, some, List, [], ◌∷◌, map, All, strip_prefix, strconv_atoi, pos,
}
use splitter.Config.Types.{Config}
use splitter.Config.Defaults.{defaults}
use splitter.Tor.Version.{span, Version, parse_version_output}
use splitter.Tor.Restart.{Event, start_ok, grace_over, cancelled, begin, step, run, all_ready}
use splitter.Circuit.Renewer.{new_renewer, add_instance}
use splitter.Circuit.Renewer
use splitter.Tor.Manager.{
  new_manager, detect_and_create, create_from_version, make_instances, make_block,
}
use splitter.Country.{new_daemon, start_daemon, select_random, filter_blacklisted}
use splitter.Haproxy.{Generated, build_config_data, generate_config, complete, interrupted}
use splitter.Health.Check.{CheckResult, feature_support, check_dependencies}
use splitter.Cmd.Startup.{
  StartWorld, loops, traces, no_haproxy_config, System, Started, serving, refused, fresh_system,
  run_startup, before_stop,
}
use splitter.Cmd.Startup.Refusals.{IsOrphaned, refused-late}

abbrev one_each : Config
one_each = record defaults {
  country = record defaults.country { accepted = "US" ∷ "DE" ∷ []; blacklisted = "DE" ∷ [] };
  instances = record defaults.instances { per_country = pos 2; countries = pos 1 };
}

abbrev version : Version
version = record { major = pos 0; minor = pos 4; patch = pos 8; release = pos 17 }

-- Each loop launches its process, and the timer of the bootstrap runs out.
abbrev comes_up : List Event
comes_up = start_ok ∷ grace_over ∷ []

abbrev world : Generated → StartWorld
world generated = record {
  first_dir = true;
  second_dir = true;
  look_path = some;
  run_version = λ path. some "Tor version 0.4.8.17.";
  shuffle_countries = λ n. [];
  detected = some version;
  happened = λ id. comes_up;
  stats_password = "secret";
  shuffle_http = λ n. [];
  shuffle_socks = λ n. [];
  generated = generated;
  haproxy_pid = some 77;
}

abbrev found : CheckResult
found = record {
  tor_path = one_each.tor.binary_path;
  tor_version = version;
  haproxy_path = one_each.haproxy.binary_path;
  privoxy_path = "";
  features = feature_support version;
}

abbrev left_by : Started → System
left_by (serving r s) = s
left_by (refused e s) = s

abbrev refused_system : System
refused_system = left_by (run_startup (world interrupted) one_each)

refused-late_example :
    (refused_system.runners
      ≡ map (λ r. step r cancelled) (loops (world interrupted) refused_system.manager.instances))
    × All IsOrphaned (traces (world interrupted) refused_system.manager.instances)
    × (refused_system.renewer.contexts ≡ true ∷ [])
unfolding run_startup before_stop check_dependencies parse_version_output select_random
    filter_blacklisted all_ready defaults strip_prefix span strconv_atoi detect_and_create
    Renewer.start create_from_version fresh_system new_manager make_instances make_block
    add_instance new_renewer build_config_data generate_config run step begin
refused-late_example =
    refused-late (world interrupted) one_each no_haproxy_config refused_system refl refl

abbrev started_system : System
started_system = record (fresh_system (world complete) one_each) {
  renewer = record new_renewer { contexts = false ∷ [] };
  daemon = start_daemon (new_daemon one_each);
}
