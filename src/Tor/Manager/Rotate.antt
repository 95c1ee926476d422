-- ===== src/Tor/Manager/Rotate.antt =====
-- What `RotateInstance` changes.
use splitter.Prelude.{
  ℕ, String, ◌≡◌, refl, Bool, true, false, not, ◌&&◌, ◌||◌, Option, none, some, List, [], ◌∷◌,
  arith, ◌==◌, if◌then◌else◌, is_some,
}
use splitter.Tor.Restart.{State, starting, bootstrapping, failed}
use splitter.Tor.Instance.{
  Instance, StartOutcome, torrc_failed, data_dir_failed, spawn_failed, spawned,
}
use splitter.Tor.Manager.{
  TorManager, find_instance, get_instance, rotate, rotate_in, rotate_instance,
}

-- The state that a start leaves in an instance that was stopped before it.
abbrev pub state_after : StartOutcome → State
state_after spawned = bootstrapping
state_after spawn_failed = failed
state_after _ = starting

abbrev pub succeeds : StartOutcome → Bool
succeeds spawned = true
succeeds _ = false

-- The instance after a rotation to a country.
abbrev pub rotated : StartOutcome → String → Instance → Instance
rotated outcome country inst = record inst {
  country = country;
  state = state_after outcome;
  has_proc = succeeds outcome || inst.has_proc;
}

rotate_lem :
    (outcome : StartOutcome) (country : String) (inst : Instance)
    → rotate outcome country inst ≡ (rotated outcome country inst, not (succeeds outcome))
unfolding rotate
rotate_lem torrc_failed country inst = refl
rotate_lem data_dir_failed country inst = refl
rotate_lem spawn_failed country inst = refl
rotate_lem spawned country inst = refl

-- The first instance with the id is replaced, and the others stay.
abbrev pub replace_first : ℕ → (Instance → Instance) → List Instance → List Instance
replace_first id f [] = []
replace_first id f (inst ∷ rest) =
    let later = replace_first id f rest in if inst.id == id then f inst ∷ rest else inst ∷ later

pub rotate_in_lem :
    (outcome : StartOutcome) (id : ℕ) (country : String) (instances : List Instance)
    → rotate_in outcome id country instances ≡ (
      replace_first id (rotated outcome country) instances,
      not (is_some (find_instance id instances) && succeeds outcome),
    )
unfolding rotate_in
rotate_in_lem outcome id country [] = refl
rotate_in_lem outcome id country (inst ∷ rest) =
    ground (arith, rotate_lem outcome country inst, rotate_in_lem outcome id country rest)

abbrev pub map_found : (Instance → Instance) → Option Instance → Option Instance
map_found f none = none
map_found f (some inst) = some (f inst)

find-replace_first :
    (id j : ℕ) (outcome : StartOutcome) (country : String) (instances : List Instance)
    → find_instance j (replace_first id (rotated outcome country) instances) ≡ (
        if id == j
        then map_found (rotated outcome country) (find_instance j instances)
        else find_instance j instances)
find-replace_first id j outcome country [] = ground arith
find-replace_first id j outcome country (inst ∷ rest) =
    ground (arith, find-replace_first id j outcome country rest)

-- After `RotateInstance`, on every outcome of the start: the instance of the id has the new country, also
-- where the start failed, with the state that the start left; every other instance is as it was; and
-- there is an error exactly where no instance has the id or the start failed.
pub rotate_instance_lem :
    (outcome : StartOutcome) (m : TorManager) (id : ℕ) (country : String)
    → let (m', error) = rotate_instance outcome m id country in
      ((j : ℕ)
        → get_instance m' j ≡ (
            if id == j
            then map_found (rotated outcome country) (get_instance m j)
            else get_instance m j))
      × (error ≡ not (is_some (get_instance m id) && succeeds outcome))
unfolding rotate_instance get_instance
rotate_instance_lem outcome m id country =
    let e = rotate_in_lem outcome id country m.instances in
    (λ j. rw e (find-replace_first id j outcome country m.instances), rw e)
