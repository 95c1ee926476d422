-- ===== src/Metrics.antt =====
-- internal/metrics/registry.go: metrics with labelled series, the registry, and what it renders.
-- What the code does with floats is a parameter, and so is the quoting of `%q`. A map of labels is a list
-- of keys and values in which a key stands once.
pub mod Series
pub mod Splitter
mod Examples
use Prim.Native.String.{◌++◌ as text_append}
use splitter.Prelude.{
  String, Bool, false, not, ◌||◌, List, [], ◌∷◌, ◌++◌, map, str_eq, ◌==◌, if◌then◌else◌, length,
  str_leb, sort,
}

pub record Floats (V : Type 0) : Type 0 where
  pub zero_float : V
  pub one_float : V
  pub add_float : V → V → V
  pub is_zero_float : V → Bool
  -- `%g`
  pub format_float : V → String
  -- `%q`
  pub quote : String → String

pub data MetricType : Type 0 where
  counter gauge : MetricType

abbrev pub type_name : MetricType → String
type_name counter = "counter"
type_name gauge = "gauge"

abbrev pub Labels : Type 0
Labels = List (String × String)

pub record LabeledValue (V : Type 0) : Type 0 where
  pub labels : Labels
  pub value : V

pub record Metric (V : Type 0) : Type 0 where
  pub name : String
  pub help : String
  pub mtype : MetricType
  pub self : V
  pub labeled : List (LabeledValue V)

-- `m[k] = v`
abbrev pub set_label : String → String → Labels → Labels
set_label k v [] = (k, v) ∷ []
set_label k v ((k', v') ∷ rest) =
    let rest' = set_label k v rest in if str_eq k k' then (k, v) ∷ rest else (k', v') ∷ rest'

-- The pairs from the first on; a last one without a partner is left out.
abbrev set_labels : List String → Labels → Labels
set_labels (k ∷ v ∷ rest) m = set_labels rest (set_label k v m)
set_labels _ m = m

unfoldable pub label_map : List String → Labels
label_map pairs = set_labels pairs []

-- The labels in the order of their keys.
abbrev key_leb : String × String → String × String → Bool
key_leb (k, _) (k', _) = str_leb k k'

abbrev pub sorted_labels : Labels → Labels
sorted_labels m = sort key_leb m

-- `strings.Join`
abbrev pub join : String → List String → String
join sep [] = ""
join sep (x ∷ []) = x
join sep (x ∷ y ∷ rest) = text_append x (text_append sep (join sep (y ∷ rest)))

abbrev pub equation : String × String → String
equation (k, v) = text_append k (text_append "=" v)

unfoldable pub label_key_from_map : Labels → String
label_key_from_map m = join "," (map equation (sorted_labels m))

unfoldable pub label_key : List String → String
label_key pairs = label_key_from_map (label_map pairs)

-- The registry: its metrics. A metric is referred to by its name, which stands once.
abbrev pub has_metric : {V : Type 0} → String → List (Metric V) → Bool
has_metric name [] = false
has_metric name (m ∷ ms) = str_eq m.name name || has_metric name ms

-- An operation on the metric that a name refers to.
abbrev pub on_metric :
    {V : Type 0} → String → (Metric V → Metric V) → List (Metric V) → List (Metric V)
on_metric name f [] = []
on_metric name f (m ∷ ms) =
    let rest = on_metric name f ms in if str_eq m.name name then f m ∷ ms else m ∷ rest

module _ {V : Type 0} (floats : Floats V) where
  unfoldable pub inc : Metric V → Metric V
  inc m = record m { self = floats.add_float m.self floats.one_float }

  unfoldable pub add : V → Metric V → Metric V
  add v m = record m { self = floats.add_float m.self v }

  unfoldable pub set : V → Metric V → Metric V
  set v m = record m { self = v }

  -- The first series of the key is updated, and a series is added where there is none.
  abbrev pub update_series :
      (V → V) → V → List String → List (LabeledValue V) → List (LabeledValue V)
  update_series f initial pairs [] = record { labels = label_map pairs; value = initial } ∷ []
  update_series f initial pairs (lv ∷ rest) =
      let rest' = update_series f initial pairs rest in
      if str_eq (label_key_from_map lv.labels) (label_key pairs)
      then record lv { value = f lv.value } ∷ rest
      else lv ∷ rest'

  unfoldable pub inc_with_labels : List String → Metric V → Metric V
  inc_with_labels pairs m = record m {
    labeled =
        update_series (λ v. floats.add_float v floats.one_float) floats.one_float pairs m.labeled;
  }

  unfoldable pub set_with_labels : V → List String → Metric V → Metric V
  set_with_labels v pairs m = record m { labeled = update_series (λ _. v) v pairs m.labeled }

  abbrev quoted : String × String → String
  quoted (k, v) = text_append k (text_append "=" (floats.quote v))

  unfoldable pub render_value : String → Labels → V → String
  render_value name [] v =
      text_append name (text_append " " (text_append (floats.format_float v) "\n"))
  render_value name (l ∷ ls) v = text_append name (
      text_append "{" (
        text_append (join "," (map quoted (sorted_labels (l ∷ ls))))
          (text_append "} " (text_append (floats.format_float v) "\n"))))

  abbrev pub concat : List String → String
  concat [] = ""
  concat (s ∷ rest) = text_append s (concat rest)

  abbrev pub self_line : Metric V → List String
  self_line m =
      if not (floats.is_zero_float m.self) || length m.labeled == 0
      then render_value m.name [] m.self ∷ []
      else []

  unfoldable pub render_metric : Metric V → String
  render_metric m =
      text_append
        (concat (
          "# HELP "
          ∷ m.name
          ∷ " "
          ∷ m.help
          ∷ "\n"
          ∷ "# TYPE "
          ∷ m.name
          ∷ " "
          ∷ type_name m.mtype
          ∷ "\n"
          ∷ []))
        (concat (
          self_line m
          ++ map (λ (lv : LabeledValue V). render_value m.name lv.labels lv.value) m.labeled))

  unfoldable pub new_metric : String → String → MetricType → List (Metric V) → List (Metric V)
  new_metric name help mt ms =
      if has_metric name ms
      then ms
      else ms
        ++ record { name = name; help = help; mtype = mt; self = floats.zero_float; labeled = [] }
          ∷ []

  unfoldable pub new_counter : String → String → List (Metric V) → List (Metric V)
  new_counter name help ms = new_metric name help counter ms

  unfoldable pub new_gauge : String → String → List (Metric V) → List (Metric V)
  new_gauge name help ms = new_metric name help gauge ms

  unfoldable pub render : List (Metric V) → String
  render ms = concat (map render_metric ms)
