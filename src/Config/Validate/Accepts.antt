-- ===== src/Config/Validate/Accepts.antt =====
-- What `Validate` accepts.
use splitter.Prelude.{
  ℕ, ◌^◌, ◌≤◌, String, ◌≡◌, refl, ◌≢◌, ◌↔◌, ◌⊎◌, inl, inr, true, false, none, List, [], ◌∷◌, arith,
  str_eq, str_eq_iff, Bool-cases, All, ℤ, ◌≤ℤ◌, ◌<ℤ◌, leb_ℤ, add64, mul64, to_lower, pos, negsuc,
}
use splitter.Config.Types.{Config}
use splitter.Config.Validate.{
  in_set, relay_modes, proxy_modes, bridge_types, profile_names, levels, last_port, ports,
  check_ports, check_numbers, validate, validate_ports, check_range,
}

-- The text is one of these.
abbrev pub OneOf : String → List String → Type 0
OneOf s [] = ⊥
OneOf s (v ∷ []) = s ≡ v
OneOf s (v ∷ w ∷ vs) = (s ≡ v) ⊎ OneOf s (w ∷ vs)

abbrev pub IsPort : ℤ → Type 0
IsPort z = (pos 0 ≤ℤ z) × (z ≤ℤ pos 65535)

-- Every field that holds the number of a port.
abbrev pub HasPorts : Config → Type 0
HasPorts cfg =
    IsPort cfg.proxy.master.port
    × IsPort cfg.proxy.master.socks_port
    × IsPort cfg.proxy.master.http_port
    × IsPort cfg.proxy.master.transparent_port
    × IsPort cfg.proxy.stats.port
    × IsPort cfg.tor.start_socks_port
    × IsPort cfg.tor.start_control_port
    × IsPort cfg.tor.start_http_port
    × IsPort cfg.tor.start_transport_port
    × IsPort cfg.tor.start_dns_port
    × IsPort cfg.tor.hidden_service.start_port
    × IsPort cfg.privoxy.start_port
    × IsPort cfg.dns.dist_port

abbrev IsLevel : String → Type 0
IsLevel level = (level ≡ "debug") ⊎ (level ≡ "info") ⊎ (level ≡ "warn") ⊎ (level ≡ "error")

abbrev pub IsProfile : String → Type 0
IsProfile name =
    (name ≡ "stealth") ⊎ (name ≡ "balanced") ⊎ (name ≡ "streaming") ⊎ (name ≡ "pentest")

-- The rules, each in its own words; the range of the SOCKS ports is computed as the code computes it.
pub record IsValid (cfg : Config) : Type 0 where
  pub per_country : pos 0 <ℤ cfg.instances.per_country
  pub countries : pos 0 <ℤ cfg.instances.countries
  pub enforce :
      (cfg.relay.enforce ≡ "entry") ⊎ (cfg.relay.enforce ≡ "exit") ⊎ (cfg.relay.enforce ≡ "speed")
  pub proxy_mode : (cfg.proxy_mode ≡ "native") ⊎ (cfg.proxy_mode ≡ "legacy")
  pub bridge_type :
      (cfg.bridge_type ≡ "snowflake")
      ⊎ (cfg.bridge_type ≡ "webtunnel")
      ⊎ (cfg.bridge_type ≡ "obfs4")
      ⊎ (cfg.bridge_type ≡ "none")
  pub profile : cfg.profile ≢ "" → IsProfile cfg.profile
  pub log_level : cfg.log_level ≢ "" → IsLevel (to_lower cfg.log_level)
  pub logging_level : IsLevel (to_lower cfg.logging.level)
  pub port_numbers : HasPorts cfg
  pub range :
      add64 cfg.tor.start_socks_port (mul64 cfg.instances.per_country cfg.instances.countries)
      ≤ℤ pos 65535

in_set_sound : (s : String) (vs : List String) → in_set s vs ≡ true → OneOf s vs
unfolding in_set
in_set_sound s [] h = cc
in_set_sound s (v ∷ []) h = (str_eq_iff s v).0 (ground arith)
in_set_sound s (v ∷ w ∷ vs) h = elim (Bool-cases (str_eq s v)) [
  | inl e ↦ inl ((str_eq_iff s v).0 e)
  | inr e ↦ inr (in_set_sound s (w ∷ vs) (rw e at h))
]

in_set_complete : (s : String) (vs : List String) → OneOf s vs → in_set s vs ≡ true
unfolding in_set
in_set_complete s [] h = absurd h
in_set_complete s (v ∷ []) e = rw ((str_eq_iff s v).1 e)
in_set_complete s (v ∷ w ∷ vs) (inl e) = rw ((str_eq_iff s v).1 e)
in_set_complete s (v ∷ w ∷ vs) (inr h) = ground (arith, in_set_complete s (w ∷ vs) h)

check_ports_sound : (ps : List (String × ℤ)) → check_ports ps ≡ none → All (λ p. IsPort p.1) ps
unfolding check_ports
check_ports_sound [] h = tt
check_ports_sound ((n, z) ∷ ps) h = ground (arith, check_ports_sound ps)

check_ports_complete : (ps : List (String × ℤ)) → All (λ p. IsPort p.1) ps → check_ports ps ≡ none
unfolding check_ports
check_ports_complete [] h = refl
check_ports_complete ((n, z) ∷ ps) ((lo, hi), h) = ground (arith, check_ports_complete ps h)

checked_ports : (cfg : Config) → All (λ p. IsPort p.1) (ports cfg) → HasPorts cfg
checked_ports cfg (a, (b, (c, (d, (e, (f, (g, (h, (i, (j, (k, (l, (m, _))))))))))))) =
    (a, b, c, d, e, f, g, h, i, j, k, l, m)

listed_ports : (cfg : Config) → HasPorts cfg → All (λ p. IsPort p.1) (ports cfg)
listed_ports cfg (a, b, c, d, e, f, g, h, i, j, k, l, m) =
    (a, (b, (c, (d, (e, (f, (g, (h, (i, (j, (k, (l, (m, tt)))))))))))))

-- The tests of `validate` that the configuration passes, one for each `if`.
record Passes (cfg : Config) : Type 0 where
  per_country : leb_ℤ cfg.instances.per_country (pos 0) ≡ false
  countries : leb_ℤ cfg.instances.countries (pos 0) ≡ false
  enforce : in_set cfg.relay.enforce relay_modes ≡ true
  proxy_mode : in_set cfg.proxy_mode proxy_modes ≡ true
  bridge_type : in_set cfg.bridge_type bridge_types ≡ true
  profile : (str_eq cfg.profile "" ≡ true) ⊎ (in_set cfg.profile profile_names ≡ true)
  log_level : (str_eq cfg.log_level "" ≡ true) ⊎ (in_set (to_lower cfg.log_level) levels ≡ true)
  logging_level : in_set (to_lower cfg.logging.level) levels ≡ true
  numbers : check_numbers cfg ≡ none

validate-Passes : (cfg : Config) → validate cfg ≡ none → Passes cfg
unfolding validate
validate-Passes cfg h = ground arith

Passes-validate : (cfg : Config) → Passes cfg → validate cfg ≡ none
unfolding validate
Passes-validate cfg p = ground arith

check_numbers-none :
    (cfg : Config)
    → (check_numbers cfg ≡ none) ↔ ((validate_ports cfg ≡ none) × (check_range cfg ≡ none))
unfolding check_numbers
check_numbers-none cfg = (λ h. ground arith, λ h. ground arith)

check_range-none :
    (cfg : Config)
    → (check_range cfg ≡ none) ↔ (
        add64 cfg.tor.start_socks_port (mul64 cfg.instances.per_country cfg.instances.countries)
        ≤ℤ last_port)
unfolding check_range
check_range-none cfg = (λ h. ground arith, λ h. ground arith)

optional_sound :
    (s : String) (t : String) (vs : List String)
    → (str_eq s "" ≡ true) ⊎ (in_set t vs ≡ true)
    → s ≢ ""
    → OneOf t vs
optional_sound s t vs (inl e) h = absurd (h ((str_eq_iff s "").0 e))
optional_sound s t vs (inr e) h = in_set_sound t vs e

optional_complete :
    (s : String) (t : String) (vs : List String)
    → (s ≢ "" → OneOf t vs)
    → (str_eq s "" ≡ true) ⊎ (in_set t vs ≡ true)
optional_complete s t vs h = elim (Bool-cases (str_eq s "")) [
  | inl e ↦ inl e
  | inr e ↦ inr (in_set_complete t vs (h (λ p. cc (e, (str_eq_iff s "").1 p))))
]

pub validate_sound : (cfg : Config) → validate cfg ≡ none → IsValid cfg
validate_sound cfg h =
    let p = validate-Passes cfg h in
    let n = (check_numbers-none cfg).0 p.numbers in
    record {
      per_country = ground (arith, p.per_country);
      countries = ground (arith, p.countries);
      enforce = in_set_sound cfg.relay.enforce relay_modes p.enforce;
      proxy_mode = in_set_sound cfg.proxy_mode proxy_modes p.proxy_mode;
      bridge_type = in_set_sound cfg.bridge_type bridge_types p.bridge_type;
      profile = optional_sound cfg.profile cfg.profile profile_names p.profile;
      log_level = optional_sound cfg.log_level (to_lower cfg.log_level) levels p.log_level;
      logging_level = in_set_sound (to_lower cfg.logging.level) levels p.logging_level;
      port_numbers =
          checked_ports cfg (check_ports_sound (ports cfg) (unfold validate_ports in n.0));
      range = (check_range-none cfg).0 n.1;
    }

pub validate_complete : (cfg : Config) → IsValid cfg → validate cfg ≡ none
validate_complete cfg v = Passes-validate cfg (record {
  per_country = ground (arith, v.per_country);
  countries = ground (arith, v.countries);
  enforce = in_set_complete cfg.relay.enforce relay_modes v.enforce;
  proxy_mode = in_set_complete cfg.proxy_mode proxy_modes v.proxy_mode;
  bridge_type = in_set_complete cfg.bridge_type bridge_types v.bridge_type;
  profile = optional_complete cfg.profile cfg.profile profile_names v.profile;
  log_level = optional_complete cfg.log_level (to_lower cfg.log_level) levels v.log_level;
  logging_level = in_set_complete (to_lower cfg.logging.level) levels v.logging_level;
  numbers = (check_numbers-none cfg).1 (ports_none, (check_range-none cfg).1 v.range);
})
  where
    ports_none : validate_ports cfg ≡ none
    ports_none =
        unfold validate_ports in check_ports_complete (ports cfg) (listed_ports cfg v.port_numbers)

-- `Validate` accepts exactly the configurations that keep every rule: positive counts, words from their
-- lists, port numbers from 0 to 65535, and a SOCKS range, computed in 64 bits, that ends by 65535.
pub validate_iff : (cfg : Config) → (validate cfg ≡ none) ↔ IsValid cfg
validate_iff cfg = (validate_sound cfg, validate_complete cfg)

-- A configuration with 2 ^ 32 countries and as many instances in each.
unfoldable pub with_huge_counts : Config → Config
with_huge_counts cfg = record cfg {
  instances = record cfg.instances { per_country = pos (2 ^ 32); countries = pos (2 ^ 32) };
}

wrapped_total : mul64 (pos (2 ^ 32)) (pos (2 ^ 32)) ≡ pos 0
unfolding mul64
wrapped_total = refl

add64-zero : (a : ℕ) → a ≤ 65535 → add64 (pos a) (pos 0) ≡ pos a
unfolding add64
add64-zero a h = ground arith

start_range : (z : ℤ) → IsPort z → add64 z (pos 0) ≤ℤ last_port
start_range (pos a) h = rw (add64-zero a (omega arith)) (omega arith)
start_range (negsuc a) h = absurd (omega arith)

-- The number of SOCKS ports wraps around: whatever is valid stays valid with 2 ^ 32 countries of
-- 2 ^ 32 instances each, where the 2 ^ 64 ports cannot fit below 65535.
pub validate_overflow :
    (cfg : Config) → validate cfg ≡ none → validate (with_huge_counts cfg) ≡ none
unfolding with_huge_counts
validate_overflow cfg h =
    let v = validate_sound cfg h in
    validate_complete (with_huge_counts cfg) (record {
      per_country = omega arith;
      countries = omega arith;
      enforce = v.enforce;
      proxy_mode = v.proxy_mode;
      bridge_type = v.bridge_type;
      profile = v.profile;
      log_level = v.log_level;
      logging_level = v.logging_level;
      port_numbers = v.port_numbers;
      range = rw wrapped_total (start_range cfg.tor.start_socks_port v.port_numbers.5);
    })
