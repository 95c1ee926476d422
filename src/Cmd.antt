-- ===== src/Cmd.antt =====
-- cmd/run.go and cmd/reload.go: the adapter that lets the country daemon rotate the manager's instances,
-- and the reload of the configuration on SIGHUP.
pub mod Rotator
pub mod Reload
pub mod Startup
mod Examples
use splitter.Prelude.{
  ℕ, String, Bool, true, false, not, ◌||◌, Option, none, some, List, [], ◌∷◌, ◌++◌, map, str_eq,
  ◌==◌, if◌then◌else◌, length, eqb_ℤ,
}
use Prim.Native.String.{◌++◌ as text_append}
use splitter.Config.Types.{Config}
use splitter.Config.Equal.{
  String-discrete, Strings-discrete, ProxyConfig-discrete, TorConfig-discrete,
  HealthCheckConfig-discrete, PrivoxyConfig-discrete,
}
use splitter.Config.Load.{Loaded, ok, err, LoadError}
use splitter.Tor.Instance.{StartOutcome}
use splitter.Tor.Manager.{TorManager, get_instance_infos, rotate_instance}
use splitter.Country.{InstanceInfo, InstanceRotator, Daemon, update_config}
use splitter.Haproxy.{
  ConfigData, HaproxyManager, Generated, generate_config, build_config_data, reload_haproxy,
}

-- `torRotator`, where a start of the instance `id` in the country `c` ends as `outcome id c`. Its
-- `GetInstances` copies the manager's infos, and its `RotateInstance` is the manager's.
unfoldable pub tor_rotator : (ℕ → String → StartOutcome) → InstanceRotator TorManager
tor_rotator outcome = record {
  get_instances =
      λ m. map (λ info. record { id = info.id; country = info.country }) (get_instance_infos m);
  rotate_instance = λ m id c. rotate_instance (outcome id c) m id c;
}

abbrev pub eqb_Bool : Bool → Bool → Bool
eqb_Bool true b = b
eqb_Bool false b = not b

-- `reflect.DeepEqual`
abbrev pub deep_equal : {A : Type 0} → Discrete A → A → A → Bool
deep_equal discrete a b = elim (discrete a b) [ yes _ ↦ true | no _ ↦ false ]

pub record ConfigDiff : Type 0 where
  pub country_list_changed : Bool
  pub rotation_changed : Bool
  pub haproxy_changed : Bool
  pub tor_changed : Bool

unfoldable pub diff_config : Config → Config → ConfigDiff
diff_config old new = record {
  country_list_changed =
      not (deep_equal Strings-discrete old.country.accepted new.country.accepted)
      || not (deep_equal Strings-discrete old.country.blacklisted new.country.blacklisted);
  rotation_changed =
      not (eqb_ℤ old.country.rotation.interval new.country.rotation.interval)
      || (not (eqb_Bool old.country.rotation.enabled new.country.rotation.enabled)
          || not (eqb_ℤ old.country.rotation.total_to_change new.country.rotation.total_to_change));
  haproxy_changed =
      not (deep_equal ProxyConfig-discrete old.proxy new.proxy)
      || (not (deep_equal HealthCheckConfig-discrete old.health_check new.health_check)
          || (not (eqb_ℤ old.instances.retries new.instances.retries)
              || (not (str_eq old.proxy_mode new.proxy_mode)
                  || not (deep_equal PrivoxyConfig-discrete old.privoxy new.privoxy))));
  tor_changed =
      not (deep_equal TorConfig-discrete old.tor new.tor)
      || not (str_eq old.relay.enforce new.relay.enforce);
}

unfoldable pub parts : ConfigDiff → List String
parts d =
    (if d.country_list_changed then "country list" ∷ [] else [])
    ++ (if d.rotation_changed then "rotation interval" ∷ [] else [])
    ++ (if d.haproxy_changed then "haproxy config" ∷ [] else [])
    ++ (if d.tor_changed then "tor config (restart needed)" ∷ [] else [])

-- `strings.Join(parts, ", ")`
unfoldable pub join : List String → String
join [] = ""
join (s ∷ []) = s
join (s ∷ t ∷ rest) = text_append s (text_append ", " (join (t ∷ rest)))

unfoldable pub summary : ConfigDiff → String
summary d = if length (parts d) == 0 then "no changes detected" else join (parts d)

-- What the handler works on. The HAProxy manager reads the same configuration `cfg`; the daemon reads
-- the countries of its own, which `UpdateConfig` sets.
pub record App : Type 0 where
  pub cfg : Config
  pub daemon : Daemon
  pub haproxy : HaproxyManager
  pub tor : TorManager

-- What happens outside of the program during a reload.
pub record ReloadWorld : Type 0 where
  pub shuffle_http : ℕ → List (ℕ × ℕ)
  pub shuffle_socks : ℕ → List (ℕ × ℕ)
  pub generated : Generated
  pub spawned : Option ℕ

-- The message at the end.
pub data Report : Type 0 where
  load_failed : LoadError → Report
  generation_failed haproxy_failed : Report
  reloaded : String → Report

abbrev pub with_country : Config → App → App
with_country new app = record app {
  daemon = update_config new app.daemon;
  cfg = record app.cfg { country = new.country };
}

abbrev pub with_proxy : Config → App → App
with_proxy new app = record app {
  cfg = record app.cfg {
    proxy = new.proxy;
    health_check = new.health_check;
    instances = record app.cfg.instances { retries = new.instances.retries };
    proxy_mode = new.proxy_mode;
    privoxy = new.privoxy;
  };
}

abbrev pub after_reload : String → App → HaproxyManager × Bool → App × Report
after_reload s app (h, failed) =
    (record app { haproxy = h }, if failed then haproxy_failed else reloaded s)

abbrev pub after_generate : ReloadWorld → String → App → HaproxyManager × Bool → App × Report
after_generate w s app (h, failed) =
    if failed
    then (record app { haproxy = h }, generation_failed)
    else after_reload s app (reload_haproxy w.spawned h)

-- The block for a changed HAProxy configuration; `none` is a panic of `BuildConfigData`.
unfoldable pub reload_proxy : ReloadWorld → String → App → Option (App × Report)
reload_proxy w s app =
    elim (build_config_data w.shuffle_http w.shuffle_socks app.cfg app.tor.instances
      app.haproxy.stats_password) [
        | none ↦ none
        | some data_ ↦ some (after_generate w s app (generate_config w.generated data_ app.haproxy))
      ]

abbrev pub move_if : Bool → Config → App → App
move_if changed new app = if changed then with_country new app else app

abbrev pub reload_if : Bool → ReloadWorld → String → Config → App → Option (App × Report)
reload_if changed w s new app =
    if changed then reload_proxy w s (with_proxy new app) else some (app, reloaded s)

unfoldable pub reload_with : ReloadWorld → Config → App → Option (App × Report)
reload_with w new app =
    let changes = diff_config app.cfg new in
    reload_if changes.haproxy_changed w (summary changes) new
      (move_if (changes.country_list_changed || changes.rotation_changed) new app)

-- `handleReload`, on what `config.Load` returned.
unfoldable pub handle_reload : ReloadWorld → Loaded → App → Option (App × Report)
handle_reload w (err e) app = some (app, load_failed e)
handle_reload w (ok new) app = reload_with w new app
