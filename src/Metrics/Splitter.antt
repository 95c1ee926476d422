-- ===== src/Metrics/Splitter.antt =====
-- internal/metrics/splitter.go: the metrics of the program.
use splitter.Prelude.{
  String, ◌≡◌, refl, ap, ◌∙◌, inl, inr, Bool, true, ◌||◌, Option, none, some, List, [], ◌∷◌, arith,
  str_eq, if◌then◌else◌, Bool-cases, All, str_eq_refl,
}
use splitter.Metrics.Series.{value_at, value_at-update, value_or}
use splitter.Metrics.{
  Floats, Metric, label_key, inc, set, inc_with_labels, set_with_labels, has_metric, new_counter,
  new_gauge, on_metric,
}

module _ {V : Type 0} (floats : Floats V) where
  unfoldable pub new_splitter_metrics : List (Metric V) → List (Metric V)
  new_splitter_metrics ms =
      let m1 = new_gauge floats "splitter_instances_total" "Total number of tor instances" ms in
      let m2 =
        new_gauge floats "splitter_instances_active" "Number of instances in ready state" m1 in
      let m3 =
        new_gauge floats "splitter_instance_state" "Per-instance state (1=current state)" m2 in
      let m4 = new_gauge floats "splitter_instance_country" "Per-instance country assignment" m3 in
      let m5 = new_counter floats "splitter_circuits_total" "Total circuits created" m4 in
      let m6 =
        new_counter floats "splitter_circuit_renewals_total" "Per-instance NEWNYM count" m5 in
      let m7 = new_counter floats "splitter_errors_total" "Total errors encountered" m6 in
      new_gauge floats "splitter_bootstrap_progress" "Per-instance bootstrap progress 0-100" m7

  -- The two numbers as floats.
  unfoldable pub set_instance_count : V → V → List (Metric V) → List (Metric V)
  set_instance_count total active ms =
      on_metric "splitter_instances_active" (set floats active)
        (on_metric "splitter_instances_total" (set floats total) ms)

  unfoldable pub set_instance_state : String → String → List (Metric V) → List (Metric V)
  set_instance_state id state =
      on_metric "splitter_instance_state"
        (set_with_labels floats floats.one_float ("instance_id" ∷ id ∷ "state" ∷ state ∷ []))

  unfoldable pub set_instance_country : String → String → List (Metric V) → List (Metric V)
  set_instance_country id country =
      on_metric "splitter_instance_country"
        (set_with_labels floats floats.one_float ("instance_id" ∷ id ∷ "country" ∷ country ∷ []))

  unfoldable pub inc_circuits : List (Metric V) → List (Metric V)
  inc_circuits = on_metric "splitter_circuits_total" (inc floats)

  unfoldable pub inc_circuit_renewal : String → List (Metric V) → List (Metric V)
  inc_circuit_renewal id =
      on_metric "splitter_circuit_renewals_total" (inc_with_labels floats ("instance_id" ∷ id ∷ []))

  unfoldable pub inc_errors : List (Metric V) → List (Metric V)
  inc_errors = on_metric "splitter_errors_total" (inc floats)

  unfoldable pub set_bootstrap_progress : String → V → List (Metric V) → List (Metric V)
  set_bootstrap_progress id progress =
      on_metric "splitter_bootstrap_progress"
        (set_with_labels floats progress ("instance_id" ∷ id ∷ []))

  -- The value of a series of the metric of this name.
  abbrev pub value_in : String → String → List (Metric V) → Option V
  value_in name k [] = none
  value_in name k (m ∷ ms) =
      let rest = value_in name k ms in if str_eq m.name name then value_at k m.labeled else rest

  value_in-set :
      (name : String) (v : V) (pairs : List String) (k : String) (ms : List (Metric V))
      → has_metric name ms ≡ true
      → value_in name k (on_metric name (set_with_labels floats v pairs) ms)
        ≡ (if str_eq (label_key pairs) k then some v else value_in name k ms)
  unfolding set_with_labels
  value_in-set name v pairs k [] h = ground arith
  value_in-set name v pairs k (m ∷ ms) h = elim (Bool-cases (str_eq m.name name)) [
    | inl e ↦ rw e (
        rw e (
          value_at-update floats (λ _. v) v pairs k m.labeled
          ∙ set_either (value_at k m.labeled) (str_eq (label_key pairs) k)))
    | inr e ↦ rw e (rw e (value_in-set name v pairs k ms (ground arith)))
  ]
    where
      set_either :
          (o : Option V) (b : Bool)
          → (if b then some (value_or v (λ _. v) o) else o) ≡ (if b then some v else o)
      set_either none b = refl
      set_either (some w) b = refl

  has_metric-on :
      (name other : String) (f : Metric V → Metric V) (ms : List (Metric V))
      → ((m : Metric V) → (f m).name ≡ m.name)
      → has_metric name (on_metric other f ms) ≡ has_metric name ms
  has_metric-on name other f [] same = refl
  has_metric-on name other f (m ∷ ms) same = elim (Bool-cases (str_eq m.name other)) [
    | inl e ↦ rw e (ap (λ t. str_eq t name || has_metric name ms) (same m))
    | inr e ↦ rw e (ap (λ b. str_eq m.name name || b) (has_metric-on name other f ms same))
  ]

  abbrev pub state_key : String → String → String
  state_key id state = label_key ("instance_id" ∷ id ∷ "state" ∷ state ∷ [])

  abbrev pub set_states : String → List String → List (Metric V) → List (Metric V)
  set_states id [] ms = ms
  set_states id (state ∷ states) ms = set_states id states (set_instance_state id state ms)

  abbrev pub state_value : String → String → List (Metric V) → Option V
  state_value id state ms = value_in "splitter_instance_state" (state_key id state) ms

  state_value-set :
      (id state old : String) (ms : List (Metric V))
      → has_metric "splitter_instance_state" ms ≡ true
      → (has_metric "splitter_instance_state" (set_instance_state id state ms) ≡ true)
        × (state_value id state (set_instance_state id state ms) ≡ some floats.one_float)
        × (state_value id old ms ≡ some floats.one_float
            → state_value id old (set_instance_state id state ms) ≡ some floats.one_float)
  unfolding set_instance_state
  state_value-set id state old ms h =
      let pairs = "instance_id" ∷ id ∷ "state" ∷ state ∷ [] in
      let at : (k : String)
          → value_in "splitter_instance_state" k (set_instance_state id state ms) ≡ (
              if str_eq (label_key pairs) k
              then some floats.one_float
              else value_in "splitter_instance_state" k ms) =
        λ k. value_in-set "splitter_instance_state" floats.one_float pairs k ms h in
      (
        has_metric-on "splitter_instance_state" "splitter_instance_state"
              (set_with_labels floats floats.one_float pairs) ms named
            ∙ h,
        at (label_key pairs) ∙ rw (str_eq_refl (label_key pairs)) refl,
        λ before.
            at (state_key id old)
            ∙ elim (Bool-cases (str_eq (label_key pairs) (state_key id old))) [
              | inl e ↦ rw e refl
              | inr e ↦ rw e before
            ],
      )
    where
      named :
          (m : Metric V)
          → (set_with_labels floats floats.one_float
              ("instance_id" ∷ id ∷ "state" ∷ state ∷ [])
              m).name
            ≡ m.name
      named m = unfold set_with_labels in refl

  stays :
      (id old : String) (states : List String) (ms : List (Metric V))
      → has_metric "splitter_instance_state" ms ≡ true
      → state_value id old ms ≡ some floats.one_float
      → state_value id old (set_states id states ms) ≡ some floats.one_float
  stays id old [] ms h before = before
  stays id old (state ∷ states) ms h before =
      let (h', _, same) = state_value-set id state old ms h in
      stays id old states (set_instance_state id state ms) h' (same before)

  -- Where the registry has the metric of states, `SetInstanceState` of one state after the other leaves
  -- the series of every one of them at 1, the last state's and all that the instance has left.
  pub set_states-stay :
      (id : String) (states : List String) (ms : List (Metric V))
      → has_metric "splitter_instance_state" ms ≡ true
      → All (λ state. state_value id state (set_states id states ms) ≡ some floats.one_float) states
  set_states-stay id [] ms h = tt
  set_states-stay id (state ∷ states) ms h =
      let (h', now, _) = state_value-set id state state ms h in
      (
        stays id state states (set_instance_state id state ms) h' now,
        set_states-stay id states (set_instance_state id state ms) h',
      )
