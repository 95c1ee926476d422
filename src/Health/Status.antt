-- ===== src/Health/Status.antt =====
-- internal/health/status.go and cmd/status.go: the status that is collected, and how it is shown.
-- The collected status is a snapshot: the manager, and the state of an instance is read twice.
mod Counts
mod Names
use Prim.Native.Char.{Char, code}
use Prim.Native.String.{◌++◌ as text_append}
use splitter.Prelude.{
  ℕ, suc, String, Bool, true, false, Option, none, some, List, [], ◌∷◌, map, str_eq, if◌then◌else◌,
  length, ℤ, split_once,
}
use splitter.Process.{Process}
use splitter.Tor.Version.{
  Version, supports_conflux, supports_http_tunnel, supports_congestion_control, supports_cgo,
}
use splitter.Tor.Restart.{State, starting, bootstrapping, ready, failed}
use splitter.Tor.Instance.{Instance}
use splitter.Tor.Manager.{TorManager}

pub record InstanceStatus : Type 0 where
  pub id : ℕ
  pub country : String
  pub state : String
  pub socks_port : ℤ
  pub control_port : ℤ
  pub http_port : ℤ

pub record SystemStatus : Type 0 where
  pub tor_version : Option Version
  pub features : List (String × Bool)
  pub instances : List InstanceStatus
  pub total_instances : ℕ
  pub ready_count : ℕ
  pub failed_count : ℕ
  pub processes : ℕ
  pub process_breakdown : List (String × ℕ)

unfoldable pub state_text : State → String
state_text starting = "starting"
state_text bootstrapping = "bootstrapping"
state_text ready = "ready"
state_text failed = "failed"

abbrev pub features_of : Option Version → List (String × Bool)
features_of none = []
features_of (some v) =
    ("conflux", supports_conflux v)
    ∷ ("http_tunnel", supports_http_tunnel v)
    ∷ ("congestion_control", supports_congestion_control v)
    ∷ ("cgo", supports_cgo v)
    ∷ []

abbrev pub instance_status : Instance → InstanceStatus
instance_status inst = record {
  id = inst.id;
  country = inst.country;
  state = state_text inst.state;
  socks_port = inst.socks_port;
  control_port = inst.control_port;
  http_port = inst.http_port;
}

abbrev pub is_ready_state : State → Bool
is_ready_state ready = true
is_ready_state _ = false

abbrev pub is_failed_state : State → Bool
is_failed_state failed = true
is_failed_state _ = false

-- The loop over the instances: their statuses and the two counters.
abbrev pub add_instance : Instance → List InstanceStatus × ℕ × ℕ → List InstanceStatus × ℕ × ℕ
add_instance inst (statuses, n_ready, n_failed) = (
  instance_status inst ∷ statuses,
  if is_ready_state inst.state then suc n_ready else n_ready,
  if is_failed_state inst.state then suc n_failed else n_failed,
)

unfoldable pub collect_instances : List Instance → List InstanceStatus × ℕ × ℕ
collect_instances [] = ([], 0, 0)
collect_instances (inst ∷ rest) = add_instance inst (collect_instances rest)

-- `name[:Index(name, "-")]`
abbrev pub category : String → String
category name = elim (split_once "-" name) [ none ↦ name | some (kind, rest) ↦ kind ]

-- `breakdown[name]++`
abbrev pub count_one : String → List (String × ℕ) → List (String × ℕ)
count_one kind [] = (kind, 1) ∷ []
count_one kind ((k, n) ∷ rest) =
    let rest' = count_one kind rest in if str_eq k kind then (k, suc n) ∷ rest else (k, n) ∷ rest'

abbrev pub count_all : List Process → List (String × ℕ) → List (String × ℕ)
count_all [] breakdown = breakdown
count_all (p ∷ ps) breakdown = count_all ps (count_one (category p.name) breakdown)

unfoldable pub categorize_processes : List Process → List (String × ℕ)
categorize_processes procs = count_all procs []

-- Without the time.
unfoldable pub collect_status : TorManager → List Process → SystemStatus
collect_status m procs =
    let (statuses, n_ready, n_failed) = collect_instances m.instances in
    record {
      tor_version = m.version;
      features = features_of m.version;
      instances = statuses;
      total_instances = length m.instances;
      ready_count = n_ready;
      failed_count = n_failed;
      processes = length procs;
      process_breakdown = categorize_processes procs;
    }

-- The icon and the colour.
unfoldable pub state_icon : String → String × String
state_icon state =
    if str_eq state "ready"
    then ("●", "\u{1b}[32m")
    else if str_eq state "failed"
    then ("○", "\u{1b}[31m")
    else if str_eq state "bootstrapping"
    then ("◎", "\u{1b}[33m")
    else ("◦", "\u{1b}[90m")

-- `features[name]`: false for a key that is missing.
abbrev pub feature_on : String → List (String × Bool) → Bool
feature_on name [] = false
feature_on name ((k, on) ∷ rest) = if str_eq name k then on else feature_on name rest

abbrev pub format_feature : List (String × Bool) → String → String
format_feature features name =
    if feature_on name features
    then text_append "\u{1b}[32m" (text_append name " ✓\u{1b}[0m")
    else text_append "\u{1b}[31m" (text_append name " ✗\u{1b}[0m")

abbrev join : List String → String
join [] = ""
join (s ∷ []) = s
join (s ∷ t ∷ rest) = text_append s (text_append " | " (join (t ∷ rest)))

unfoldable pub format_features : List (String × Bool) → String
format_features features =
    join (
      map (format_feature features) ("conflux" ∷ "http_tunnel" ∷ "congestion_control" ∷ "cgo" ∷ []))
