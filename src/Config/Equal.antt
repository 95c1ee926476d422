-- ===== src/Config/Equal.antt =====
-- `reflect.DeepEqual` on the parts of a configuration: they are equal when all their fields are. A nil
-- slice and an empty one are the same list here.
use native.Mathlib.Decide.{ℕ_discrete}
use splitter.Prelude.{String, inl, inr, List, arith, str_eq, str_eq_iff, Bool-cases, ℤ}
use splitter.Config.Types.{ProxyConfig, TorConfig, PrivoxyConfig, HealthCheckConfig}

pub String-discrete : Discrete String
String-discrete a b = elim (Bool-cases (str_eq a b)) [
  | inl e ↦ yes ((str_eq_iff a b).0 e)
  | inr e ↦ no (λ same. ground (arith, str_eq_iff a b))
]

pub Strings-discrete : Discrete (List String)
Strings-discrete = hlevel (String-discrete)

pub ℤ-discrete : Discrete ℤ
ℤ-discrete = hlevel (ℕ_discrete)

pub Integers-discrete : Discrete (List ℤ)
Integers-discrete = hlevel (ℤ-discrete)

pub ProxyConfig-discrete : Discrete ProxyConfig
ProxyConfig-discrete = hlevel (String-discrete, ℤ-discrete, Strings-discrete)

pub TorConfig-discrete : Discrete TorConfig
TorConfig-discrete = hlevel (String-discrete, ℤ-discrete, Integers-discrete)

pub HealthCheckConfig-discrete : Discrete HealthCheckConfig
HealthCheckConfig-discrete = hlevel (String-discrete, ℤ-discrete)

pub PrivoxyConfig-discrete : Discrete PrivoxyConfig
PrivoxyConfig-discrete = hlevel (String-discrete, ℤ-discrete)
