-- ===== src/Cmd/Examples.antt =====
-- cmd/reload.go and cmd/run.go: concrete runs.
use splitter.Prelude.{
  ℕ, String, ◌≡◌, refl, true, false, some, List, [], ◌∷◌, arith, ◌==◌, if◌then◌else◌, IsInRange,
  pos,
}
use splitter.Config.Types.{Config}
use splitter.Config.Defaults.{defaults}
use splitter.Config.Load.{ok}
use splitter.Config.Equal.{
  Strings-discrete, ProxyConfig-discrete, TorConfig-discrete, HealthCheckConfig-discrete,
}
use splitter.Tor.Version.{Version}
use splitter.Tor.Instance.{StartOutcome, spawned, spawn_failed}
use splitter.Tor.Manager.{TorManager, create_from_version, new_manager}
use splitter.Country.{rotate_once, new_daemon}
use splitter.Country.Rotation.{IsDraw}
use splitter.Haproxy.{
  build_config_data, generate_config, http_list, socks_list, new_haproxy, not_created,
}
use splitter.Cmd.{
  tor_rotator, App, ReloadWorld, diff_config, summary, parts, join, generation_failed, reloaded,
  handle_reload, reload_with, reload_proxy, with_proxy,
}
use splitter.Cmd.Rotator.{Pointwise, round_on_manager}
use splitter.Cmd.Reload.{deep_equal_refl, reloads_once}

-- A shuffle that leaves everything in its place.
abbrev still : ℕ → List (ℕ × ℕ)
still n = []

still-IsInRange : IsInRange still
still-IsInRange n = tt

abbrev lowest : ℕ → ℕ
lowest n = 0

lowest-IsDraw : IsDraw lowest
lowest-IsDraw n h = omega arith

abbrev v0_4_8 : Version
v0_4_8 = record { major = pos 0; minor = pos 4; patch = pos 8; release = pos 0 }

abbrev twelve : TorManager
twelve =
    create_from_version defaults v0_4_8 ("{AT}" ∷ "{BE}" ∷ "{CH}" ∷ "{DE}" ∷ "{ES}" ∷ "{FR}" ∷ [])
      new_manager

-- The process of the instance 3 cannot be started again.
abbrev fails_at_three : ℕ → String → StartOutcome
fails_at_three id c = if id == 3 then spawn_failed else spawned

round_on_manager_example :
    (m' : TorManager) × (rotate_once
        (tor_rotator fails_at_three)
        still
        (λ k. lowest)
        defaults
        twelve
      ≡ some m')
    × Pointwise defaults twelve.instances m'.instances
round_on_manager_example =
    round_on_manager fails_at_three still (λ k. lowest) still-IsInRange (λ k. lowest-IsDraw)
      defaults twelve

joins :
    summary (record {
      country_list_changed = true;
      rotation_changed = false;
      haproxy_changed = true;
      tor_changed = false;
    })
    ≡ "country list, haproxy config"
unfolding summary parts join
joins = refl

abbrev more_retries : Config
more_retries = record defaults { instances = record defaults.instances { retries = pos 7 } }

abbrev running : App
running = record {
  cfg = defaults;
  daemon = new_daemon defaults;
  haproxy = new_haproxy "secret";
  tor = new_manager;
}

-- The HAProxy file cannot be created.
abbrev full_disk : ReloadWorld
full_disk = record {
  shuffle_http = still;
  shuffle_socks = still;
  generated = not_created;
  spawned = some 40;
}

only_haproxy : diff_config defaults more_retries ≡ record {
  country_list_changed = false;
  rotation_changed = false;
  haproxy_changed = true;
  tor_changed = false;
}
unfolding diff_config defaults
only_haproxy =
    rw
      (
        deep_equal_refl Strings-discrete defaults.country.accepted,
        deep_equal_refl Strings-discrete defaults.country.blacklisted,
        deep_equal_refl ProxyConfig-discrete defaults.proxy,
        deep_equal_refl HealthCheckConfig-discrete defaults.health_check,
        deep_equal_refl TorConfig-discrete defaults.tor,
      )
      refl

fails_to_write :
    handle_reload full_disk (ok more_retries) running
    ≡ some (with_proxy more_retries running, generation_failed)
unfolding handle_reload reload_with reload_proxy build_config_data generate_config http_list
    socks_list new_manager new_haproxy
fails_to_write = rw only_haproxy refl

reloads_once_example :
    handle_reload full_disk (ok more_retries) (with_proxy more_retries running)
    ≡ some (
      with_proxy more_retries running,
      reloaded (
          if (diff_config defaults more_retries).tor_changed
          then "tor config (restart needed)"
          else "no changes detected"),
    )
reloads_once_example = reloads_once full_disk more_retries running fails_to_write full_disk
