-- ===== src/Tor/Examples.antt =====
-- The Tor modules on concrete inputs.
use splitter.Prelude.{
  ℕ, ◌+◌, ◌*◌, ◌/◌, ◌<◌, String, ◌≡◌, refl, ◌≢◌, ◌↔◌, true, false, not, ◌&&◌, none, some, List, [],
  ◌∷◌, map, arith, ◌==◌, if◌then◌else◌, is_some, length, get_elem?, All, pos_part, add64, mul64,
  to_lower, strip_prefix, strconv_atoi, pos,
}
use splitter.Config.Defaults.{defaults}
use splitter.Config.Validate.{validate, validate_ports, in_set, check_numbers, check_range}
use splitter.Tor.Version.{Version, parse_version_output, parse_tls_info, span}
use splitter.Tor.Version.Features.{◌⊒◌}
use splitter.Tor.Restart.{
  returned, Event, start_ok, start_failed, backoff_over, grace_over, exited, begin, step, run,
  all_ready,
}
use splitter.Tor.Restart.Signals.{all_ready_each, WasReady}
use splitter.Tor.Restart.Rotation.{rotations, rotation_splits, relaunched}
use splitter.Tor.Instance.{Instance, BridgesConfig, spawn_failed, build_instance_config}
use splitter.Tor.Instance.Torrc.{features_are_gated, version_0_4_7, version_0_4_8}
use splitter.Tor.Manager.{
  TorManager, new_manager, make_instance, make_block, make_instances, create_from_version,
  get_instance, rotate_instance,
}
use splitter.Tor.Manager.Ports.{IsMade, create_from_version_lem, socks_port_in_range}
use splitter.Tor.Manager.Rotate.{rotated, succeeds, map_found, rotate_instance_lem}

abbrev v0_4_8_17 : Version
v0_4_8_17 = record { major = pos 0; minor = pos 4; patch = pos 8; release = pos 17 }

abbrev v0_4_9 : Version
v0_4_9 = record { major = pos 0; minor = pos 4; patch = pos 9; release = pos 0 }

-- The field holds the whole match, the name included.
tls_text :
    parse_tls_info "Tor is running on Linux with OpenSSL 3.5.1, Zlib"
    ≡ record { openssl_version = "OpenSSL 3.5.1"; post_quantum_ok = true }
unfolding parse_tls_info span strip_prefix strconv_atoi
tls_text = refl

overflowing_line_is_skipped :
    parse_version_output "Tor version 99999999999999999999.1.1\nTor version 0.4.9\n" ≡ some v0_4_9
unfolding parse_version_output span strip_prefix strconv_atoi
overflowing_line_is_skipped = refl

abbrev bumpy : List Event
bumpy =
    start_failed
    ∷ backoff_over
    ∷ start_ok
    ∷ grace_over
    ∷ exited true
    ∷ backoff_over
    ∷ start_ok
    ∷ grace_over
    ∷ []

abbrev smooth : List Event
smooth = start_ok ∷ grace_over ∷ []

all_ready_each_example :
    All WasReady (bumpy ∷ smooth ∷ [])
    × All (λ r. r.signals ≡ 1) (map (run begin) (bumpy ∷ smooth ∷ []))
unfolding all_ready run step begin
all_ready_each_example = all_ready_each (bumpy ∷ smooth ∷ []) refl

rotation_splits_example :
    All (λ es. (relaunched (run begin smooth) es).live ≡ 2) (rotations true)
    × All
        (λ es.
          ((run (run begin smooth) es).live ≡ 1)
          × ((later : List Event) → (run (run (run begin smooth) es) later).phase ≡ returned))
        (rotations false)
unfolding run step begin
rotation_splits_example = rotation_splits (run begin smooth) ((false, refl), (λ e. cc), refl)

halve : ℕ → ℕ
halve n = n / 2

halve-lt : (n : ℕ) → 0 < n → halve n < n
unfolding halve
halve-lt n h = omega arith

abbrev joined : String → String → String
joined a b = b

abbrev first : Instance
first = make_instance defaults v0_4_8_17 "{DE}" 0

features_are_gated_example :
    let ic = build_instance_config joined halve defaults first in
    ((ic.conflux_enabled ≡ true)
      ↔ ((first.version ⊒ version_0_4_8) × (defaults.tor.conflux_enabled ≡ true)))
    × ((ic.congestion_control_auto ≡ true)
        ↔ ((first.version ⊒ version_0_4_7) × (defaults.tor.congestion_control_auto ≡ true)))
    × ((ic.sandbox_enabled ≡ true)
        ↔ ((first.version ⊒ version_0_4_7) × (defaults.tor.sandbox ≡ true)))
    × ((ic.use_bridges ≡ true) ↔ (first.bridge_lines ≢ []))
features_are_gated_example = features_are_gated joined halve defaults first

abbrev cities : List String
cities = "{AT}" ∷ "{BE}" ∷ "{CH}" ∷ "{DE}" ∷ "{ES}" ∷ "{FR}" ∷ []

abbrev made : TorManager
made = create_from_version defaults v0_4_8_17 cities new_manager

create_from_version_lem_example :
    (length made.instances ≡ pos_part defaults.instances.per_country * length cities)
    × ((k : ℕ)
        → k < pos_part defaults.instances.per_country * length cities
        → (country : String) × (inst : Instance) × (get_elem? cities
              (k / pos_part defaults.instances.per_country)
            ≡ some country)
          × (get_elem? made.instances k ≡ some inst)
          × IsMade defaults v0_4_8_17 country k inst)
create_from_version_lem_example = create_from_version_lem defaults v0_4_8_17 cities

defaults-valid : validate defaults ≡ none
unfolding validate defaults in_set to_lower check_numbers check_range validate_ports mul64 add64
defaults-valid = refl

eighth : get_elem? made.instances 7 ≡ some (make_instance defaults v0_4_8_17 "{DE}" 7)
unfolding create_from_version make_instances make_block new_manager defaults
eighth = refl

socks_port_in_range_example :
    ((make_instance defaults v0_4_8_17 "{DE}" 7).id ≡ 7)
    × ((make_instance defaults v0_4_8_17 "{DE}" 7).socks_port
        ≡ pos (pos_part defaults.tor.start_socks_port + 7))
    × (pos_part defaults.tor.start_socks_port + 7 < 65535)
socks_port_in_range_example =
    socks_port_in_range defaults v0_4_8_17 cities defaults-valid (unfold defaults in refl)
      (unfold defaults in omega arith) 7 (make_instance defaults v0_4_8_17 "{DE}" 7) eighth

abbrev only_obfs4 : BridgesConfig
only_obfs4 = record {
  snowflake = none;
  webtunnel = none;
  obfs4 = some (record { description = ""; transport = "obfs4"; lines = "a" ∷ "b" ∷ [] });
}

rotate_instance_lem_example :
    let (m', error) = rotate_instance spawn_failed made 3 "{SE}" in
    ((j : ℕ)
      → get_instance m' j ≡ (
          if 3 == j
          then map_found (rotated spawn_failed "{SE}") (get_instance made j)
          else get_instance made j))
    × (error ≡ not (is_some (get_instance made 3) && succeeds spawn_failed))
rotate_instance_lem_example = rotate_instance_lem spawn_failed made 3 "{SE}"
