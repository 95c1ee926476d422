-- ===== src/Metrics/Series.antt =====
-- internal/metrics/registry.go: a metric as a number and a map from keys to numbers.
use splitter.Prelude.{
  ℕ, ◌+◌, ◌≤◌, String, ◌≡◌, refl, ap, ◌∙◌, inl, inr, false, ◌&&◌, Option, none, some, List, [], ◌∷◌,
  arith, str_eq, str_eq_iff, ◌==◌, if◌then◌else◌, Bool-cases, count,
}
use splitter.Metrics.{
  Floats, LabeledValue, Metric, label_key, label_key_from_map, inc, add, set, update_series,
  inc_with_labels, set_with_labels,
}

-- The value of the series of this key.
abbrev pub value_at : {V : Type 0} → String → List (LabeledValue V) → Option V
value_at k [] = none
value_at k (lv ∷ rest) =
    let later = value_at k rest in
    if str_eq (label_key_from_map lv.labels) k then some lv.value else later

abbrev pub series_of : {V : Type 0} → String → List (LabeledValue V) → ℕ
series_of k = count (λ (lv : LabeledValue _). str_eq (label_key_from_map lv.labels) k)

pub data Op (V : Type 0) : Type 0 where
  inc_self : Op V
  add_self set_self : V → Op V
  inc_labels : List String → Op V
  set_labels : V → List String → Op V

-- What a metric is for: a number, and a number for each key that there is one for.
pub record Meaning (V : Type 0) : Type 0 where
  pub self : V
  pub at : String → Option V

abbrev pub value_or : {V : Type 0} → V → (V → V) → Option V → V
value_or initial f none = initial
value_or initial f (some v) = f v

abbrev pub at_key : {V : Type 0} → String → (V → V) → V → (String → Option V) → String → Option V
at_key key f initial at k = if str_eq key k then some (value_or initial f (at k)) else at k

both_keys : (a b k : String) → str_eq a b ≡ false → (str_eq a k && str_eq b k) ≡ false
both_keys a b k h = ground (arith, str_eq_iff a b, str_eq_iff a k, str_eq_iff b k)

module _ {V : Type 0} (floats : Floats V) where
  abbrev pub mean : Op V → Meaning V → Meaning V
  mean inc_self m = record m { self = floats.add_float m.self floats.one_float }
  mean (add_self v) m = record m { self = floats.add_float m.self v }
  mean (set_self v) m = record m { self = v }
  mean (inc_labels pairs) m = record m {
    at = at_key (label_key pairs) (λ v. floats.add_float v floats.one_float) floats.one_float m.at;
  }
  mean (set_labels v pairs) m = record m { at = at_key (label_key pairs) (λ _. v) v m.at }

  abbrev pub apply : Op V → Metric V → Metric V
  apply inc_self m = inc floats m
  apply (add_self v) m = add floats v m
  apply (set_self v) m = set floats v m
  apply (inc_labels pairs) m = inc_with_labels floats pairs m
  apply (set_labels v pairs) m = set_with_labels floats v pairs m

  abbrev pub mean_all : List (Op V) → Meaning V → Meaning V
  mean_all [] m = m
  mean_all (op ∷ ops) m = mean_all ops (mean op m)

  abbrev pub apply_all : List (Op V) → Metric V → Metric V
  apply_all [] m = m
  apply_all (op ∷ ops) m = apply_all ops (apply op m)

  pub value_at-update :
      (f : V → V) (initial : V) (pairs : List String) (k : String) (ls : List (LabeledValue V))
      → value_at k (update_series floats f initial pairs ls)
        ≡ at_key (label_key pairs) f initial (λ k. value_at k ls) k
  unfolding label_key
  value_at-update f initial pairs k [] = refl
  value_at-update f initial pairs k (lv ∷ rest) =
      let a = label_key_from_map lv.labels in
      let b = label_key pairs in
      let ih = value_at-update f initial pairs k rest in
      elim (Bool-cases (str_eq a b)) [
        | inl e ↦ let same = ap (λ t. str_eq t k) ((str_eq_iff a b).0 e) in ground arith
        | inr e ↦ let apart = both_keys a b k e in ground arith
      ]

  series_of-update :
      (f : V → V) (initial : V) (pairs : List String) (k : String) (ls : List (LabeledValue V))
      → series_of k (update_series floats f initial pairs ls)
        ≡ series_of k ls + (if str_eq (label_key pairs) k && series_of k ls == 0 then 1 else 0)
  unfolding label_key
  series_of-update f initial pairs k [] = ground arith
  series_of-update f initial pairs k (lv ∷ rest) =
      let a = label_key_from_map lv.labels in
      let b = label_key pairs in
      let ih = series_of-update f initial pairs k rest in
      elim (Bool-cases (str_eq a b)) [
        | inl e ↦ let same = ap (λ t. str_eq t k) ((str_eq_iff a b).0 e) in ground arith
        | inr e ↦ let apart = both_keys a b k e in ground arith
      ]

  -- A metric stands for a number and a map, each key with one series at most.
  abbrev pub Means : Metric V → Meaning V → Type 0
  Means m meaning =
      (m.self ≡ meaning.self)
      × ((k : String) → value_at k m.labeled ≡ meaning.at k)
      × ((k : String) → series_of k m.labeled ≤ 1)

  update-Means :
      (f : V → V) (initial : V) (pairs : List String) (m : Metric V) (meaning : Meaning V)
      → Means m meaning
      → Means
          (record m { labeled = update_series floats f initial pairs m.labeled })
          (record meaning { at = at_key (label_key pairs) f initial meaning.at })
  update-Means f initial pairs m meaning (self, at, once) = (
    self,
    λ k. value_at-update f initial pairs k m.labeled ∙ rw (at k) refl,
    λ k.
        let before = once k in
        let more = series_of-update f initial pairs k m.labeled in ground arith,
  )

  apply-Means :
      (op : Op V) (m : Metric V) (meaning : Meaning V)
      → Means m meaning
      → Means (apply op m) (mean op meaning)
  unfolding inc add set inc_with_labels set_with_labels
  apply-Means inc_self m meaning (self, at, once) =
      (ap (λ v. floats.add_float v floats.one_float) self, at, once)
  apply-Means (add_self v) m meaning (self, at, once) =
      (ap (λ w. floats.add_float w v) self, at, once)
  apply-Means (set_self v) m meaning (self, at, once) = (refl, at, once)
  apply-Means (inc_labels pairs) m meaning h =
      update-Means (λ v. floats.add_float v floats.one_float) floats.one_float pairs m meaning h
  apply-Means (set_labels v pairs) m meaning h = update-Means (λ _. v) v pairs m meaning h

  -- Whatever is done to a metric, it stands for the number and the map that the same operations give
  -- on a number and a map from the keys of label pairs: an increment or a value set changes the entry
  -- of its key and no other, starting it where there is none. No key ever has a second series.
  pub apply_all-Means :
      (ops : List (Op V)) (m : Metric V) (meaning : Meaning V)
      → Means m meaning
      → Means (apply_all ops m) (mean_all ops meaning)
  apply_all-Means [] m meaning h = h
  apply_all-Means (op ∷ ops) m meaning h =
      apply_all-Means ops (apply op m) (mean op meaning) (apply-Means op m meaning h)
