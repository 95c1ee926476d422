-- ===== src/Tor/Manager/Bridges.antt =====
-- What `SetBridgesForAll` does to the instances.
use splitter.Prelude.{
  String, ◌≡◌, refl, inl, inr, ◌||◌, Option, none, some, List, [], ◌∷◌, map, arith, str_eq,
  if◌then◌else◌, Bool-cases,
}
use splitter.Tor.Instance.{
  Instance, BridgeConfig, BridgesConfig, BridgeError, Found, found, refused, take_bridge,
  lookup_bridge, set_bridges,
}
use splitter.Tor.Manager.{TorManager, bridges_in, set_bridges_for_all}

-- What is found for a bridge type, no bridge for the type `none` or the empty one.
abbrev pub chosen : String → Option BridgesConfig → Found
chosen bridge_type bridges =
    if str_eq bridge_type "none" || str_eq bridge_type ""
    then found none
    else lookup_bridge bridges bridge_type

abbrev pub use_bridge : BridgeConfig → Instance → Instance
use_bridge bc inst = record inst { bridge_lines = bc.lines; bridge_transport = bc.transport }

set_bridges-take :
    (bridge_type : String) (bridges : Option BridgesConfig) (inst : Instance)
    → set_bridges bridge_type bridges inst ≡ take_bridge (chosen bridge_type bridges) inst
unfolding set_bridges
set_bridges-take bridge_type bridges inst =
    elim (Bool-cases (str_eq bridge_type "none" || str_eq bridge_type "")) [
      | inl e ↦ rw e
      | inr e ↦ rw e
    ]

-- The instances and the error that a choice leads to.
abbrev pub outcome : Found → List Instance → List Instance × Option BridgeError
outcome (refused e) [] = ([], none)
outcome (refused e) (inst ∷ rest) = (inst ∷ rest, some e)
outcome (found none) instances = (instances, none)
outcome (found (some bc)) instances = (map (use_bridge bc) instances, none)

bridges_in-outcome :
    (bridge_type : String) (bridges : Option BridgesConfig) (f : Found) (instances : List Instance)
    → ((inst : Instance) → set_bridges bridge_type bridges inst ≡ take_bridge f inst)
    → bridges_in bridge_type bridges instances ≡ outcome f instances
unfolding bridges_in
bridges_in-outcome bridge_type bridges (refused e) [] h = refl
bridges_in-outcome bridge_type bridges (found none) [] h = refl
bridges_in-outcome bridge_type bridges (found (some bc)) [] h = refl
bridges_in-outcome bridge_type bridges (refused e) (inst ∷ rest) h = ground (arith, h inst)
bridges_in-outcome bridge_type bridges (found none) (inst ∷ rest) h =
    ground (arith, h inst, bridges_in-outcome bridge_type bridges (found none) rest h)
bridges_in-outcome bridge_type bridges (found (some bc)) (inst ∷ rest) h =
    ground (arith, h inst, bridges_in-outcome bridge_type bridges (found (some bc)) rest h)

-- `SetBridgesForAll` treats all instances alike. With an unknown type, or with no bridge file, it returns
-- the error and changes no instance, unless there is none. With the bridge that the file holds, every
-- instance gets its lines and its transport. With the type `none`, and also where the file lacks the
-- type's entry, it returns no error and no instance gets a bridge.
pub set_bridges_for_all_lem :
    (bridge_type : String) (bridges : Option BridgesConfig) (m : TorManager)
    → set_bridges_for_all bridge_type bridges m ≡ (
      record m { instances = (outcome (chosen bridge_type bridges) m.instances).0 },
      (outcome (chosen bridge_type bridges) m.instances).1,
    )
unfolding set_bridges_for_all
set_bridges_for_all_lem bridge_type bridges m = rw (
    bridges_in-outcome bridge_type bridges (chosen bridge_type bridges) m.instances
      (set_bridges-take bridge_type bridges))
