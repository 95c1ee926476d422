-- ===== src/Haproxy/Examples.antt =====
-- internal/haproxy: concrete runs.
use splitter.Prelude.{
  ℕ, ◌-◌, ◌*◌, String, ◌≡◌, refl, inl, inr, none, some, List, [], ◌∷◌, map, arith, ltb,
  if◌then◌else◌, Bool-cases, length, pos_part, add64, mul64, to_lower, IsInRange, pos,
}
use splitter.Config.Defaults.{defaults}
use splitter.Config.Validate.{validate, validate_ports, in_set, check_numbers, check_range}
use splitter.Tor.Version.{Version}
use splitter.Tor.Instance.{Instance, new_instance}
use splitter.Tor.Manager.{create_from_version, new_manager}
use splitter.Haproxy.{ConfigData, Backend, build_config_data, http_list}
use splitter.Haproxy.Ports.{count_port, within, one_backend_each}

-- A shuffle that exchanges the first and the last.
abbrev ends : ℕ → List (ℕ × ℕ)
ends n = if ltb 0 n then (0, n - 1) ∷ [] else []

ends-IsInRange : IsInRange ends
ends-IsInRange n = elim (Bool-cases (ltb 0 n)) [
  | inl e ↦ rw e ((ground arith, ground arith), tt)
  | inr e ↦ rw e tt
]

abbrev v0_4_8 : Version
v0_4_8 = record { major = pos 0; minor = pos 4; patch = pos 8; release = pos 0 }

-- The first has no HTTP port.
abbrev pair : List Instance
pair =
    record (new_instance 0 "{US}" v0_4_8) { socks_port = pos 4999 }
    ∷ record (new_instance 1 "{DE}" v0_4_8) { socks_port = pos 5000; http_port = pos 5200 }
    ∷ []

native_has_one : map (λ (b : Backend). b.port) (http_list defaults pair) ≡ pos 5200 ∷ []
unfolding http_list defaults new_instance
native_has_one = refl

defaults-accepted : validate defaults ≡ none
unfolding validate defaults in_set to_lower check_numbers check_range validate_ports mul64 add64
defaults-accepted = refl

abbrev six : List String
six = "{AT}" ∷ "{BE}" ∷ "{CH}" ∷ "{DE}" ∷ "{ES}" ∷ "{FR}" ∷ []

one_backend_each_example :
    (d : ConfigData) × (build_config_data ends ends defaults
        (create_from_version defaults v0_4_8 six new_manager).instances
        "secret"
      ≡ some d)
    × ((q : ℕ)
        → count_port q d.socks_backends
          ≡ within
              (pos_part defaults.tor.start_socks_port)
              (pos_part defaults.instances.per_country * length six)
              q)
one_backend_each_example =
    one_backend_each ends ends ends-IsInRange ends-IsInRange defaults v0_4_8 six "secret"
      defaults-accepted (unfold defaults in refl) (unfold defaults in omega arith)
