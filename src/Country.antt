-- ===== src/Country.antt =====
-- internal/country/selector.go and internal/country/daemon.go: the choice of countries, and the daemon
-- that moves instances to other countries.
pub mod Selection
pub mod Rotation
pub mod Round
pub mod Switch
pub mod Fetcher
pub mod Examples
use splitter.Prelude.{
  ℕ, zero, suc, ◌+◌, min, String, Bool, true, false, not, ◌||◌, Option, none, some, List, [], ◌∷◌,
  str_eq, ◌==◌, if◌then◌else◌, length, get_elem?, take, keep, ℤ, pos_part, ltb_ℤ, leb_ℤ, add64,
  mul64, shuffled, pos,
}
use splitter.Config.Types.{Config}

-- `blacklist[c]`
abbrev pub listed : String → List String → Bool
listed c [] = false
listed c (d ∷ ds) = str_eq c d || listed c ds

unfoldable pub filter_blacklisted : List String → List String → List String
filter_blacklisted accepted blacklisted =
    if length blacklisted == 0 then accepted else keep (λ c. not (listed c blacklisted)) accepted

-- `out_of_range` is the panic on an index.
pub data Choice : Type 0 where
  selected : List String → Choice
  too_few out_of_range : Choice

abbrev pub cut : ℕ → Option (List String) → Choice
cut n none = out_of_range
cut n (some result) = selected (take n result)

unfoldable pub select_random : List String → List String → ℤ → (ℕ → List (ℕ × ℕ)) → Choice
select_random accepted blacklisted n shuffle =
    let filtered = filter_blacklisted accepted blacklisted in
    if ltb_ℤ (pos (length filtered)) n
    then too_few
    else if leb_ℤ n (pos 0)
    then selected []
    else cut (pos_part n) (shuffled shuffle filtered)

pub data Pick : Type 0 where
  picked : String → Pick
  no_alternative bad_index : Pick

abbrev pub pick_at : Option String → Pick
pick_at none = bad_index
pick_at (some c) = picked c

-- `intn` is `rand.IntN`, for a positive bound.
unfoldable pub pick_different_country : (ℕ → ℕ) → String → List String → List String → Pick
pick_different_country intn current accepted blacklisted =
    let candidates = keep (λ c. not (str_eq c current)) (filter_blacklisted accepted blacklisted) in
    if length candidates == 0
    then no_alternative
    else pick_at (get_elem? candidates (intn (length candidates)))

pub record InstanceInfo : Type 0 where
  pub id : ℕ
  pub country : String

-- What the daemon asks of the manager; a rotation tells whether it failed.
pub record InstanceRotator (S : Type 0) : Type 0 where
  pub get_instances : S → List InstanceInfo
  pub rotate_instance : S → ℕ → String → S × Bool

module _ {S : Type 0} (rotator : InstanceRotator S) (accepted blacklisted : List String) where
  -- The round on one instance; `none` is a panic.
  unfoldable pub rotate_one : (ℕ → ℕ) → InstanceInfo → S → Option S
  rotate_one intn inst s = elim (pick_different_country intn inst.country accepted blacklisted) [
    | picked c ↦ some (rotator.rotate_instance s inst.id c).0
    | no_alternative ↦ some s
    | bad_index ↦ none
  ]

  -- The loop over the shuffled indices; `intn k` draws in the round `k`.
  unfoldable pub rotate_each : (ℕ → ℕ → ℕ) → List InstanceInfo → ℕ → List ℕ → S → Option S
  rotate_each intn instances k [] s = some s
  rotate_each intn instances k (i ∷ rest) s = elim (get_elem? instances i) [
    | none ↦ none
    | some inst ↦ elim (rotate_one (intn k) inst s) [
      | none ↦ none
      | some t ↦ rotate_each intn instances (k + 1) rest t
    ]
  ]

-- `indices[i] = i`
abbrev pub indices : ℕ → ℕ → List ℕ
indices from zero = []
indices from (suc n) = from ∷ indices (from + 1) n

abbrev pub cut_indices : ℕ → Option (List ℕ) → Option (List ℕ)
cut_indices n none = none
cut_indices n (some is) = some (take n is)

unfoldable pub rotate_once :
    {S : Type 0} → InstanceRotator S → (ℕ → List (ℕ × ℕ)) → (ℕ → ℕ → ℕ) → Config → S → Option S
rotate_once rotator shuffle intn cfg s =
    let instances = rotator.get_instances s in
    let total = cfg.country.rotation.total_to_change in
    let n = min (pos_part total) (length instances) in
    if length instances == 0
    then some s
    else if leb_ℤ total (pos 0)
    then some s
    else elim (cut_indices n (shuffled shuffle (indices 0 (length instances)))) [
      | none ↦ none
      | some is ↦
          rotate_each rotator cfg.country.accepted cfg.country.blacklisted intn instances 0 is s
    ]

pub record Daemon : Type 0 where
  pub cfg : Config
  pub base_interval : ℤ
  pub started : Bool
  -- the goroutine of `run` has been launched and not been cancelled
  pub running : Bool

-- Nanoseconds, as `time.Duration` counts.
abbrev pub time_second : ℤ
time_second = pos 1000000000

abbrev pub max_jitter : ℕ
max_jitter = 30000000000

abbrev pub interval_of : Config → ℤ
interval_of cfg = mul64 cfg.country.rotation.interval time_second

unfoldable pub new_daemon : Config → Daemon
new_daemon cfg = record {
  cfg = cfg;
  base_interval = interval_of cfg;
  started = false;
  running = false;
}

unfoldable pub start_daemon : Daemon → Daemon
start_daemon d =
    if not d.cfg.country.rotation.enabled
    then record d { started = true }
    else record d { started = true; running = true }

-- `Stop` cancels the goroutine, and returns when it has ended.
unfoldable pub stop_daemon : Daemon → Daemon
stop_daemon d = if not d.started then d else record d { running = false }

unfoldable pub update_config : Config → Daemon → Daemon
update_config cfg d = record d { cfg = cfg; base_interval = interval_of cfg }

unfoldable pub next_interval : (ℕ → ℕ) → Daemon → ℤ
next_interval int64n d = add64 d.base_interval (pos (int64n max_jitter))
