-- ===== src/Cmd/Startup.antt =====
-- cmd/run.go: the command `run`, from its first directory to the shutdown.
-- What the steps find outside of the program is in a record; a run ends by serving or with the error of
-- the first step that fails. The status server and the messages are left out.
pub mod Refusals
pub mod Serving
mod Examples
use Prim.Native.String.{◌++◌ as text_append}
use splitter.Prelude.{
  ℕ, String, Bool, true, false, not, Option, none, some, List, [], ◌∷◌, map, if◌then◌else◌, decimal,
  pos,
}
use splitter.Config.Types.{Config}
use splitter.Process.{Process, stop_all}
use splitter.Tor.Version.{Version}
use splitter.Tor.Restart.{Event, cancelled, Runner, begin, step, run, all_ready}
use splitter.Tor.Instance.{Instance}
use splitter.Tor.Manager.{TorManager, new_manager, detect_and_create, stop_instances}
use splitter.Circuit.Renewer.{Renewer, new_renewer, add_instance}
use splitter.Circuit.Renewer
use splitter.Country.{
  Choice, selected, too_few, out_of_range, select_random, Daemon, new_daemon, start_daemon,
  stop_daemon,
}
use splitter.Haproxy.{
  ConfigData, HaproxyManager, Generated, new_haproxy, generate_config, build_config_data,
  start_haproxy, stop_haproxy,
}
use splitter.Health.Check.{
  CheckResult, Checked, passed, lacking, DependencyError, check_dependencies,
}

pub record StartWorld : Type 0 where
  -- the two `MkdirAll`
  pub first_dir : Bool
  pub second_dir : Bool
  pub look_path : String → Option String
  pub run_version : String → Option String
  pub shuffle_countries : ℕ → List (ℕ × ℕ)
  -- the version that `DetectVersion` finds
  pub detected : Option Version
  -- what happens to the loop of the instance of an id until the wait for the instances ends, all ready
  -- or the context done
  pub happened : ℕ → List Event
  pub stats_password : String
  pub shuffle_http : ℕ → List (ℕ × ℕ)
  pub shuffle_socks : ℕ → List (ℕ × ℕ)
  pub generated : Generated
  pub haproxy_pid : Option ℕ

pub data StartError : Type 0 where
  no_directory no_selection no_tor tor_not_ready no_renewal no_haproxy_config no_haproxy :
      StartError
  -- an index out of range
  start_panic : StartError
  dependency : DependencyError → StartError

-- What a run has set up so far.
pub record System : Type 0 where
  pub manager : TorManager
  -- the loops of the instances, none before they are started
  pub runners : List Runner
  pub renewer : Renewer
  pub haproxy : HaproxyManager
  pub daemon : Daemon

pub data Started : Type 0 where
  serving : CheckResult → System → Started
  refused : StartError → System → Started

unfoldable pub fresh_system : StartWorld → Config → System
fresh_system w cfg = record {
  manager = new_manager;
  runners = [];
  renewer = new_renewer;
  haproxy = new_haproxy w.stats_password;
  daemon = new_daemon cfg;
}

-- `filepath.Join` of a clean directory.
abbrev pub cookie_path : Config → Instance → String
cookie_path cfg inst =
    text_append cfg.paths.temp_files
      (text_append "/tor_data_" (text_append (decimal inst.id) "/control_auth_cookie"))

abbrev pub add_each : Config → List Instance → Renewer → Renewer
add_each cfg [] r = r
add_each cfg (inst ∷ rest) r =
    add_each cfg rest (add_instance (pos inst.id) inst.control_port (cookie_path cfg inst) r)

-- The last steps: HAProxy, and then the daemon, whose start does not fail.
abbrev pub start_last : CheckResult → System → HaproxyManager × Bool → Started
start_last r s (h, true) = refused no_haproxy (record s { haproxy = h })
start_last r s (h, false) = serving r (record s { haproxy = h; daemon = start_daemon s.daemon })

abbrev pub after_config : StartWorld → CheckResult → System → HaproxyManager × Bool → Started
after_config w r s (h, true) = refused no_haproxy_config (record s { haproxy = h })
after_config w r s (h, false) = start_last r s (start_haproxy w.haproxy_pid h)

abbrev pub start_proxy : StartWorld → CheckResult → System → Option ConfigData → Started
start_proxy w r s none = refused start_panic s
start_proxy w r s (some data_) = after_config w r s (generate_config w.generated data_ s.haproxy)

abbrev pub after_renewal : StartWorld → Config → CheckResult → System → Renewer × Bool → Started
after_renewal w cfg r s (renewer, false) = refused no_renewal (record s { renewer = renewer })
after_renewal w cfg r s (renewer, true) =
    start_proxy w r (record s { renewer = renewer })
      (build_config_data w.shuffle_http w.shuffle_socks cfg s.manager.instances w.stats_password)

abbrev pub traces : StartWorld → List Instance → List (List Event)
traces w instances = map (λ (inst : Instance). w.happened inst.id) instances

-- The loops that `StartAllWithRestart` starts, one for each instance.
abbrev pub loops : StartWorld → List Instance → List Runner
loops w instances = map (run begin) (traces w instances)

-- `StartAllWithRestart` and the renewal.
abbrev pub start_tor : StartWorld → Config → CheckResult → System → Started
start_tor w cfg r s =
    let s' = record s { runners = loops w s.manager.instances } in
    if not (all_ready (loops w s.manager.instances))
    then refused tor_not_ready s'
    else after_renewal w cfg r s' (Renewer.start (add_each cfg s'.manager.instances s'.renewer))

abbrev pub after_create : StartWorld → Config → CheckResult → System → TorManager × Bool → Started
after_create w cfg r s (m, true) = refused no_tor (record s { manager = m })
after_create w cfg r s (m, false) = start_tor w cfg r (record s { manager = m })

abbrev pub after_selection : StartWorld → Config → CheckResult → System → Choice → Started
after_selection w cfg r s too_few = refused no_selection s
after_selection w cfg r s out_of_range = refused start_panic s
after_selection w cfg r s (selected countries) =
    after_create w cfg r s (detect_and_create cfg w.detected countries s.manager)

abbrev pub after_check : StartWorld → Config → System → Checked → Started
after_check w cfg s (lacking e) = refused (dependency e) s
after_check w cfg s (passed r) = after_selection w cfg r s (
    select_random cfg.country.accepted cfg.country.blacklisted cfg.instances.countries
      w.shuffle_countries)

-- The context of the run is cancelled: so are those of the renewal, which stand under it, and each loop of
-- an instance that waits sees it. A loop that is in `Start` goes on until its next wait.
abbrev pub cancel_context : System → System
cancel_context s = record s {
  runners = map (λ r. step r cancelled) s.runners;
  renewer = record s.renewer { contexts = map (λ (c : Bool). true) s.renewer.contexts };
}

-- `defer stop()`, when the command returns an error. A run that serves returns at its shutdown only.
abbrev pub deferred_stop : Started → Started
deferred_stop (refused e s) = refused e (cancel_context s)
deferred_stop (serving r s) = serving r s

-- What the command does before it returns. A new process manager has no process: the `StopAll` before the
-- second directory stops none.
unfoldable pub before_stop : StartWorld → Config → Started
before_stop w cfg =
    let s = fresh_system w cfg in
    if not w.first_dir
    then refused no_directory s
    else if not w.second_dir
    then refused no_directory s
    else after_check w cfg s (check_dependencies w.look_path w.run_version cfg)

unfoldable pub run_startup : StartWorld → Config → Started
unfolding before_stop
run_startup w cfg = deferred_stop (before_stop w cfg)

-- The shutdown, with the processes of the process manager; whether they end with an error is an argument.
unfoldable pub shutdown : Bool → System → List Process → System × List Process
shutdown error s processes = (
  record s {
    daemon = stop_daemon s.daemon;
    renewer = Renewer.stop s.renewer;
    haproxy = stop_haproxy s.haproxy;
  },
  stop_all error processes,
)
