-- ===== src/Tor/Manager.antt =====
-- internal/tor/manager.go: the manager of the Tor instances. The lock makes each operation one step.
pub mod Ports
pub mod Countries
pub mod Collision
pub mod Bridges
pub mod Rotate
use splitter.Prelude.{
  ℕ, zero, suc, ◌+◌, String, Bool, true, false, Option, none, some, List, [], ◌∷◌, ◌++◌, map, ◌==◌,
  if◌then◌else◌, pos_part, add64, pos,
}
use splitter.Config.Types.{Config}
use splitter.Tor.Version.{Version, supports_http_tunnel}
use splitter.Tor.Instance.{
  Instance, new_instance, BridgesConfig, BridgeError, set_bridges, StartOutcome, start, stop,
}

pub record TorManager : Type 0 where
  pub instances : List Instance
  pub version : Option Version

unfoldable pub new_manager : TorManager
new_manager = record { instances = []; version = none }

-- The instance that one round of the inner loop makes.
unfoldable pub make_instance : Config → Version → String → ℕ → Instance
unfolding new_instance
make_instance cfg version country id = record (new_instance id country version) {
  socks_port = add64 cfg.tor.start_socks_port (pos id);
  control_port = add64 cfg.tor.start_control_port (pos id);
  http_port =
      if supports_http_tunnel version then add64 cfg.tor.start_http_port (pos id) else pos 0;
}

-- The inner loop: `rounds` are left, and `id` is `instanceID`.
unfoldable pub make_block : Config → Version → String → ℕ → ℕ → List Instance
make_block cfg version country zero id = []
make_block cfg version country (suc rounds) id =
    make_instance cfg version country id ∷ make_block cfg version country rounds (id + 1)

-- The outer loop. A count that is not positive makes no round.
unfoldable pub make_instances : Config → Version → List String → ℕ → List Instance
make_instances cfg version [] id = []
make_instances cfg version (country ∷ countries) id =
    let rounds = pos_part cfg.instances.per_country in
    make_block cfg version country rounds id ++ make_instances cfg version countries (id + rounds)

unfoldable pub create_from_version : Config → Version → List String → TorManager → TorManager
create_from_version cfg version countries m = record {
  instances = m.instances ++ make_instances cfg version countries 0;
  version = some version;
}

-- `DetectAndCreate`: the same, on the version that was detected. The result tells of an error.
unfoldable pub detect_and_create :
    Config → Option Version → List String → TorManager → TorManager × Bool
detect_and_create cfg none countries m = (m, true)
detect_and_create cfg (some version) countries m =
    (create_from_version cfg version countries m, false)

abbrev pub find_instance : ℕ → List Instance → Option Instance
find_instance id [] = none
find_instance id (inst ∷ rest) = if inst.id == id then some inst else find_instance id rest

unfoldable pub get_instance : TorManager → ℕ → Option Instance
get_instance m id = find_instance id m.instances

pub record InstanceInfo : Type 0 where
  pub id : ℕ
  pub country : String

unfoldable pub get_instance_infos : TorManager → List InstanceInfo
get_instance_infos m = map (λ inst. record { id = inst.id; country = inst.country }) m.instances

-- The body of the loop of `RotateInstance`, on the instance that it found.
unfoldable pub rotate : StartOutcome → String → Instance → Instance × Bool
unfolding start stop
rotate outcome new_country inst = start outcome (record (stop inst) { country = new_country })

-- The list after the loop, and whether an error was returned; an id that no instance has is an error.
unfoldable pub rotate_in : StartOutcome → ℕ → String → List Instance → List Instance × Bool
unfolding rotate
rotate_in outcome id new_country [] = ([], true)
rotate_in outcome id new_country (inst ∷ rest) =
    let (changed, error) = rotate outcome new_country inst in
    let (rest', error') = rotate_in outcome id new_country rest in
    if inst.id == id then (changed ∷ rest, error) else (inst ∷ rest', error')

unfoldable pub rotate_instance : StartOutcome → TorManager → ℕ → String → TorManager × Bool
rotate_instance outcome m id new_country =
    let (instances, error) = rotate_in outcome id new_country m.instances in
    (record m { instances = instances }, error)

-- The loop of `SetBridgesForAll`: it stops at the first error.
unfoldable pub bridges_in :
    String → Option BridgesConfig → List Instance → List Instance × Option BridgeError
bridges_in bridge_type bridges [] = ([], none)
bridges_in bridge_type bridges (inst ∷ rest) =
    let (changed, error) = set_bridges bridge_type bridges inst in
    let (rest', error') = bridges_in bridge_type bridges rest in
    elim error [ some e ↦ (changed ∷ rest, some e) | none ↦ (changed ∷ rest', error') ]

unfoldable pub set_bridges_for_all :
    String → Option BridgesConfig → TorManager → TorManager × Option BridgeError
set_bridges_for_all bridge_type bridges m =
    let (instances, error) = bridges_in bridge_type bridges m.instances in
    (record m { instances = instances }, error)

-- `StopAll`: each instance by itself.
unfoldable pub stop_instances : TorManager → TorManager
unfolding stop
stop_instances m = record m { instances = map stop m.instances }
