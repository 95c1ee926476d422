-- ===== src/Health/Status/Counts.antt =====
-- internal/health/status.go: what the numbers of a status count.
mod Examples
use splitter.Prelude.{
  ℕ, suc, ◌+◌, ◌≤◌, String, ◌≡◌, refl, ap, ◌∙◌, inl, inr, Bool, true, false, ◌&&◌, List, [], ◌∷◌,
  map, arith, str_eq, str_eq_iff, if◌then◌else◌, Bool-cases, length, count,
}
use splitter.Health.Status.Names.{before_dash, category_lem}
use splitter.Process.{Process}
use splitter.Tor.Restart.{State, starting, bootstrapping, ready, failed}
use splitter.Tor.Instance.{Instance}
use splitter.Tor.Manager.{TorManager}
use splitter.Health.Status.{
  SystemStatus, InstanceStatus, state_text, instance_status, is_ready_state, is_failed_state,
  collect_instances, category, count_one, count_all, categorize_processes, collect_status,
}

-- The number that stands for a kind of process, 0 if there is none.
abbrev pub amount : String → List (String × ℕ) → ℕ
amount kind [] = 0
amount kind ((k, n) ∷ rest) = let later = amount kind rest in if str_eq k kind then n else later

abbrev pub total : List (String × ℕ) → ℕ
total [] = 0
total ((k, n) ∷ rest) = n + total rest

abbrev pub of_kind : String → Process → Bool
of_kind kind p = str_eq (before_dash p.name) kind

-- In which state the instances are that a status counts.
abbrev pub counts_ready : Instance → Bool
counts_ready inst = elim inst.state [
  | starting ↦ false
  | bootstrapping ↦ false
  | ready ↦ true
  | failed ↦ false
]

abbrev pub counts_failed : Instance → Bool
counts_failed inst = elim inst.state [
  | starting ↦ false
  | bootstrapping ↦ false
  | ready ↦ false
  | failed ↦ true
]

-- What a status says of an instance.
abbrev pub shown : Instance → InstanceStatus
shown inst = record {
  id = inst.id;
  country = inst.country;
  state = elim inst.state [
    | starting ↦ "starting"
    | bootstrapping ↦ "bootstrapping"
    | ready ↦ "ready"
    | failed ↦ "failed"
  ];
  socks_port = inst.socks_port;
  control_port = inst.control_port;
  http_port = inst.http_port;
}

instance_status_lem : (inst : Instance) → instance_status inst ≡ shown inst
unfolding state_text
instance_status_lem inst = ground arith

amount-count_one :
    (kind k : String) (b : List (String × ℕ))
    → amount k (count_one kind b) ≡ amount k b + (if str_eq kind k then 1 else 0)
amount-count_one kind k [] = ground arith
amount-count_one kind k ((j, n) ∷ rest) =
    let ih = amount-count_one kind k rest in
    elim (Bool-cases (str_eq j kind)) [
      | inl e ↦ let same = ap (λ t. str_eq t k) ((str_eq_iff j kind).0 e) in ground arith
      | inr e ↦
          let apart : (str_eq j k && str_eq kind k) ≡ false =
            ground (arith, str_eq_iff j kind, str_eq_iff j k, str_eq_iff kind k) in
          ground arith
    ]

total-count_one : (kind : String) (b : List (String × ℕ)) → total (count_one kind b) ≡ suc (total b)
total-count_one kind [] = omega arith
total-count_one kind ((j, n) ∷ rest) = ground (arith, total-count_one kind rest)

count_all_lem :
    (ps : List Process) (b : List (String × ℕ))
    → (total (count_all ps b) ≡ total b + length ps)
      × ((k : String) → amount k (count_all ps b) ≡ amount k b + count (of_kind k) ps)
count_all_lem [] b = (omega arith, λ k. omega arith)
count_all_lem (p ∷ ps) b =
    let (sum, each) = count_all_lem ps (count_one (category p.name) b) in
    (
      omega (arith, sum, total-count_one (category p.name) b),
      λ k.
          let one = amount-count_one (category p.name) k b in
          let rest = each k in let kind = ap (λ t. str_eq t k) (category_lem p.name) in grind arith,
    )

collect_instances_lem :
    (instances : List Instance)
    → let (statuses, n_ready, n_failed) = collect_instances instances in
      (statuses ≡ map shown instances)
      × (n_ready ≡ count counts_ready instances)
      × (n_failed ≡ count counts_failed instances)
      × (n_ready + n_failed ≤ length instances)
unfolding collect_instances
collect_instances_lem [] = (refl, refl, refl, omega arith)
collect_instances_lem (inst ∷ rest) =
    let (all, n_ready, n_failed, few) = collect_instances_lem rest in
    (
      ap (λ t. instance_status inst ∷ t) all
          ∙ ap (λ s. s ∷ map shown rest) (instance_status_lem inst),
      ground arith,
      ground arith,
      one_of inst.state (collect_instances rest).1 (collect_instances rest).2 (length rest) few,
    )
  where
    one_of :
        (s : State) (r f n : ℕ)
        → r + f ≤ n
        → (if is_ready_state s then suc r else r) + (if is_failed_state s then suc f else f) ≤ suc n
    one_of starting r f n h = omega arith
    one_of bootstrapping r f n h = omega arith
    one_of ready r f n h = omega arith
    one_of failed r f n h = omega arith

-- A status has one entry for each instance, in their order, with its id, country, ports and state; it counts the instances that are ready and
-- those that have failed, together at most all of them; the numbers by kind of process add up to the
-- number of processes, and each is that of the processes whose name before the first dash is the kind.
pub collect_status_lem :
    (m : TorManager) (procs : List Process)
    → let s = collect_status m procs in
      (s.instances ≡ map shown m.instances)
      × (s.ready_count ≡ count counts_ready m.instances)
      × (s.failed_count ≡ count counts_failed m.instances)
      × (s.ready_count + s.failed_count ≤ s.total_instances)
      × (total s.process_breakdown ≡ s.processes)
      × ((kind : String) → amount kind s.process_breakdown ≡ count (of_kind kind) procs)
unfolding collect_status categorize_processes
collect_status_lem m procs =
    let (all, n_ready, n_failed, few) = collect_instances_lem m.instances in
    let (sum, each) = count_all_lem procs [] in
    (all, n_ready, n_failed, few, omega (arith, sum), λ kind. omega (arith, each kind))
