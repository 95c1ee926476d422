-- ===== src/Health/Check.antt =====
-- internal/health/check.go: the programs that splitter needs, and what the version of Tor supports.
-- `exec.LookPath` and the run of `tor --version` are arguments.
mod Examples
use splitter.Prelude.{
  String, ◌≡◌, refl, sym, ap, ◌∙◌, ◌≢◌, ◌↔◌, ◌⊎◌, inl, inr, Bool, true, Option, none, some, arith,
  str_eq, str_eq_iff, if◌then◌else◌, Bool-cases, Option-cases, some-inj, ℤ, pos,
}
use splitter.Config.Types.{Config}
use splitter.Tor.Version.Features.{◌⊒◌, at_least_iff}
use splitter.Tor.Version.{
  Version, parse_version_output, supports_conflux, supports_http_tunnel,
  supports_congestion_control, supports_cgo, supports_post_quantum,
}

pub record FeatureSupport : Type 0 where
  pub conflux : Bool
  pub http_tunnel : Bool
  pub congestion_control : Bool
  pub cgo : Bool
  pub post_quantum : Bool

pub record CheckResult : Type 0 where
  pub tor_path : String
  pub tor_version : Version
  pub haproxy_path : String
  pub privoxy_path : String
  pub features : FeatureSupport

pub data DependencyError : Type 0 where
  no_tor no_haproxy no_privoxy version_not_run version_not_parsed : DependencyError

pub data Checked : Type 0 where
  passed : CheckResult → Checked
  lacking : DependencyError → Checked

abbrev pub feature_support : Version → FeatureSupport
feature_support v = record {
  conflux = supports_conflux v;
  http_tunnel = supports_http_tunnel v;
  congestion_control = supports_congestion_control v;
  cgo = supports_cgo v;
  post_quantum = supports_post_quantum v;
}

-- The path of Privoxy, which only the legacy mode looks for.
abbrev pub find_privoxy : (String → Option String) → Config → Option String
find_privoxy look_path cfg =
    if str_eq cfg.proxy_mode "legacy" then look_path cfg.privoxy.binary_path else some ""

abbrev pub check_version : String → String → String → Option String → Checked
check_version tor haproxy privoxy none = lacking version_not_run
check_version tor haproxy privoxy (some output) = elim (parse_version_output output) [
  | none ↦ lacking version_not_parsed
  | some v ↦ passed (record {
    tor_path = tor;
    tor_version = v;
    haproxy_path = haproxy;
    privoxy_path = privoxy;
    features = feature_support v;
  })
]

abbrev pub check_paths :
    (String → Option String) → Option String → Option String → Option String → Checked
check_paths run_version none haproxy privoxy = lacking no_tor
check_paths run_version (some tor) none privoxy = lacking no_haproxy
check_paths run_version (some tor) (some haproxy) none = lacking no_privoxy
check_paths run_version (some tor) (some haproxy) (some privoxy) =
    check_version tor haproxy privoxy (run_version tor)

unfoldable pub check_dependencies :
    (String → Option String) → (String → Option String) → Config → Checked
check_dependencies look_path run_version cfg =
    check_paths run_version (look_path cfg.tor.binary_path) (look_path cfg.haproxy.binary_path)
      (find_privoxy look_path cfg)

-- Privoxy is found, or it is another mode than the legacy one, and none is looked for.
abbrev pub HasPrivoxy : (String → Option String) → Config → String → Type 0
HasPrivoxy look_path cfg privoxy =
    ((cfg.proxy_mode ≡ "legacy") × (look_path cfg.privoxy.binary_path ≡ some privoxy))
    ⊎ ((cfg.proxy_mode ≢ "legacy") × (privoxy ≡ ""))

-- What is there for the check to pass with this version of Tor.
abbrev pub HasAll : (String → Option String) → (String → Option String) → Config → Version → Type 0
HasAll look_path run_version cfg v =
    (tor : String) × (haproxy : String) × (privoxy : String) × (output : String) × (look_path
        cfg.tor.binary_path
      ≡ some tor)
    × (look_path cfg.haproxy.binary_path ≡ some haproxy)
    × HasPrivoxy look_path cfg privoxy
    × (run_version tor ≡ some output)
    × (parse_version_output output ≡ some v)

-- The first version that has a feature, and whether this one is it or a later one.
abbrev pub Since : Bool → Version → ℤ → ℤ → Type 0
Since on v patch release =
    (on ≡ true) ↔ (v ⊒ record { major = pos 0; minor = pos 4; patch = patch; release = release })

-- What the features say of a version.
pub record TellsOf (v : Version) (f : FeatureSupport) : Type 0 where
  pub conflux : Since f.conflux v (pos 8) (pos 0)
  pub http_tunnel : Since f.http_tunnel v (pos 8) (pos 0)
  pub congestion_control : Since f.congestion_control v (pos 7) (pos 0)
  pub cgo : Since f.cgo v (pos 9) (pos 0)
  pub post_quantum : Since f.post_quantum v (pos 8) (pos 17)

feature_support-TellsOf : (v : Version) → TellsOf v (feature_support v)
unfolding supports_conflux supports_http_tunnel supports_congestion_control supports_cgo
    supports_post_quantum
feature_support-TellsOf v = record {
  conflux = at_least_iff v _;
  http_tunnel = at_least_iff v _;
  congestion_control = at_least_iff v _;
  cgo = at_least_iff v _;
  post_quantum = at_least_iff v _;
}

find_privoxy_sound :
    (look_path : String → Option String) (cfg : Config) (privoxy : String)
    → find_privoxy look_path cfg ≡ some privoxy
    → HasPrivoxy look_path cfg privoxy
find_privoxy_sound look_path cfg privoxy h = elim (Bool-cases (str_eq cfg.proxy_mode "legacy")) [
  | inl e ↦ inl ((str_eq_iff cfg.proxy_mode "legacy").0 e, rw e at h)
  | inr e ↦
      inr (λ same. cc (e, (str_eq_iff cfg.proxy_mode "legacy").1 same), sym (some-inj (rw e at h)))
]

find_privoxy_complete :
    (look_path : String → Option String) (cfg : Config) (privoxy : String)
    → HasPrivoxy look_path cfg privoxy
    → find_privoxy look_path cfg ≡ some privoxy
find_privoxy_complete look_path cfg privoxy (inl (mode, found)) =
    rw ((str_eq_iff cfg.proxy_mode "legacy").1 mode) found
find_privoxy_complete look_path cfg privoxy (inr (mode, empty)) =
    elim (Bool-cases (str_eq cfg.proxy_mode "legacy")) [
      | inl e ↦ absurd (mode ((str_eq_iff cfg.proxy_mode "legacy").0 e))
      | inr e ↦ rw e (ap some (sym empty))
    ]

-- Nothing that two lookups of the same disagree on.
differ : {A : Type 0} {o : Option A} {a : A} → o ≡ none → o ≡ some a → ⊥
differ h k = ground arith

-- The check passes, and then Tor, HAProxy, in legacy mode Privoxy, and a version of Tor that can be
-- parsed have been found, and a feature is on exactly from its first version on: 0.4.7 for congestion
-- control, 0.4.8 for Conflux and the HTTP tunnel, 0.4.8.17 for post-quantum keys and 0.4.9 for CGO; or it
-- comes with an error, and one of them cannot be found.
pub check_dependencies_lem :
    (look_path run_version : String → Option String) (cfg : Config)
    → ((r : CheckResult) × (check_dependencies look_path run_version cfg ≡ passed r)
        × HasAll look_path run_version cfg r.tor_version
        × TellsOf r.tor_version r.features)
      ⊎ ((e : DependencyError) × (check_dependencies look_path run_version cfg ≡ lacking e)
          × ((v : Version) → HasAll look_path run_version cfg v → ⊥))
unfolding check_dependencies
check_dependencies_lem look_path run_version cfg =
    elim (Option-cases (look_path cfg.tor.binary_path)) [
      | inl e ↦
          inr (no_tor, rw e refl, λ v (tor, haproxy, privoxy, output, a, b, c, d, f). differ e a)
      | inr (tor, e) ↦ elim (Option-cases (look_path cfg.haproxy.binary_path)) [
        | inl e' ↦ inr (
          no_haproxy,
          rw e (rw e' refl),
          λ v (_, haproxy, privoxy, output, a, b, c, d, f). differ e' b,
        )
        | inr (haproxy, e') ↦ elim (Option-cases (find_privoxy look_path cfg)) [
          | inl e'' ↦ inr (
            no_privoxy,
            rw e (rw e' (rw e'' refl)),
            λ v (_, _, privoxy, output, a, b, c, d, f).
                differ e'' (find_privoxy_complete look_path cfg privoxy c),
          )
          | inr (privoxy, e'') ↦ elim (Option-cases (run_version tor)) [
            | inl r ↦ inr (
              version_not_run,
              rw e (rw e' (rw e'' (rw r refl))),
              λ v (tor', _, _, output, a, b, c, d, f).
                  let same : tor ≡ tor' = some-inj (sym e ∙ a) in differ {a = output} r (rw same d),
            )
            | inr (output, r) ↦ elim (Option-cases (parse_version_output output)) [
              | inl p ↦ inr (
                version_not_parsed,
                rw e (rw e' (rw e'' (rw r (rw (p, check_version) refl)))),
                λ v (tor', _, _, output', a, b, c, d, f).
                    let same : tor ≡ tor' = some-inj (sym e ∙ a) in
                    let at : run_version tor ≡ some output' = rw same d in
                    let same' : output ≡ output' = some-inj (sym r ∙ at) in
                    differ {a = v} p (rw same' f),
              )
              | inr (v, p) ↦ inl (
                record {
                  tor_path = tor;
                  tor_version = v;
                  haproxy_path = haproxy;
                  privoxy_path = privoxy;
                  features = feature_support v;
                },
                rw e (rw e' (rw e'' (rw r (rw (p, check_version) refl)))),
                (
                  tor,
                  haproxy,
                  privoxy,
                  output,
                  e,
                  e',
                  find_privoxy_sound look_path cfg privoxy e'',
                  r,
                  p,
                ),
                feature_support-TellsOf v,
              )
            ]
          ]
        ]
      ]
    ]
