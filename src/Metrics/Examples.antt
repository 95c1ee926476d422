-- ===== src/Metrics/Examples.antt =====
-- The metrics on concrete inputs.
use Prim.Native.String.{◌++◌ as text_append}
use splitter.Prelude.{
  ℕ, ◌+◌, ◌≡◌, refl, none, some, List, [], ◌∷◌, arith, ◌==◌, All, decimal, str_leb,
}
use splitter.Metrics.{
  Floats, Metric, label_key, label_map, set, set_with_labels, gauge, new_metric, new_gauge,
  new_counter, inc_with_labels, label_key_from_map,
}
use splitter.Metrics.Series.{
  Op, Meaning, inc_labels, set_labels, set_self, value_at, apply_all, mean_all, Means,
  apply_all-Means,
}
use splitter.Metrics.Splitter.{new_splitter_metrics, set_states, state_value, set_states-stay}

abbrev counts : Floats ℕ
counts = record {
  zero_float = 0;
  one_float = 1;
  add_float = λ a b. a + b;
  is_zero_float = λ v. v == 0;
  format_float = decimal;
  quote = λ s. text_append "\"" (text_append s "\"");
}

keys :
    (label_key ("state" ∷ "ready" ∷ "instance_id" ∷ "7" ∷ "odd" ∷ []) ≡ "instance_id=7,state=ready")
    × (label_key ("a" ∷ "1,b=2" ∷ []) ≡ label_key ("a" ∷ "1" ∷ "b" ∷ "2" ∷ []))
unfolding label_key label_map label_key_from_map str_leb
keys = (refl, refl)

abbrev requests : Metric ℕ
requests = record { name = "requests"; help = "Requests"; mtype = gauge; self = 0; labeled = [] }

abbrev empty_meaning : Meaning ℕ
empty_meaning = record { self = 0; at = λ k. none }

abbrev ops : List (Op ℕ)
ops =
    inc_labels ("id" ∷ "1" ∷ [])
    ∷ set_labels 4 ("id" ∷ "2" ∷ [])
    ∷ inc_labels ("id" ∷ "1" ∷ [])
    ∷ set_self 3
    ∷ []

counted : value_at "id=1" (apply_all counts ops requests).labeled ≡ some 2
unfolding set inc_with_labels set_with_labels label_key_from_map label_map label_key str_leb
counted = refl

apply_all-Means_example :
    Means counts (apply_all counts ops requests) (mean_all counts ops empty_meaning)
apply_all-Means_example =
    apply_all-Means counts ops requests empty_meaning (refl, (λ k. refl), λ k. omega arith)

set_states-stay_example :
    All
      (λ state.
        state_value counts "7" state
          (set_states counts "7" ("starting" ∷ "ready" ∷ []) (new_splitter_metrics counts []))
        ≡ some 1)
      ("starting" ∷ "ready" ∷ [])
unfolding new_splitter_metrics new_gauge new_counter new_metric
set_states-stay_example =
    set_states-stay counts "7" ("starting" ∷ "ready" ∷ []) (new_splitter_metrics counts []) refl
