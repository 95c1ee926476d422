-- ===== src/Tor/Instance/Torrc.antt =====
-- What an instance's torrc is rendered from.
use splitter.Prelude.{
  ℕ, ◌-◌, ◌<◌, String, ◌≡◌, refl, ◌≢◌, ◌↔◌, ◌⊎◌, inl, inr, Bool, true, false, ◌&&◌, List, [], ◌∷◌,
  arith, ltb, Bool-cases, length, ℤ, pos_part, ◌≤ℤ◌, ◌<ℤ◌, leb_ℤ, add64, InRange64, add64-pos, pos,
  negsuc,
}
use splitter.Config.Types.{Config}
use splitter.Tor.Version.{
  at_least, Version, supports_conflux, supports_congestion_control, supports_sandbox,
}
use splitter.Tor.Version.Features.{◌⊒◌, at_least_iff}
use splitter.Tor.Instance.{Instance, randomize_dirtiness, build_instance_config}

dirtiness_range :
    (intn : ℕ → ℕ)
    → ((n : ℕ) → 0 < n → intn n < n)
    → (z : ℤ) → InRange64 z
    → pos 10 <ℤ z
    → let d = add64 (pos 10) (pos (intn (pos_part z - 10))) in (pos 10 ≤ℤ d) × (d <ℤ z)
dirtiness_range intn below (negsuc n) fits h = absurd (omega arith)
dirtiness_range intn below (pos n) fits h =
    let r = below (n - 10) (omega arith) in
    rw (add64-pos 10 (intn (n - 10)) (omega arith)) (omega arith)

-- The circuit lifetime that an instance gets: the configured one where that is at most 10 seconds, and
-- else a number of seconds from 10 on that is less than the configured one.
pub randomize_dirtiness_bounds :
    (intn : ℕ → ℕ)
    → ((n : ℕ) → 0 < n → intn n < n)
    → (cfg : Config) → InRange64 cfg.tor.max_circuit_dirtiness
    → let max = cfg.tor.max_circuit_dirtiness in
      let d = randomize_dirtiness intn cfg in
      ((max ≤ℤ pos 10) × (d ≡ max)) ⊎ ((pos 10 <ℤ max) × (pos 10 ≤ℤ d) × (d <ℤ max))
unfolding randomize_dirtiness
randomize_dirtiness_bounds intn below cfg fits =
    let max = cfg.tor.max_circuit_dirtiness in
    elim (Bool-cases (leb_ℤ max (pos 10))) [
      | inl small ↦ inl (ground arith, rw small refl)
      | inr large ↦
          let above : pos 10 <ℤ max = ground arith in
          let (low, high) = dirtiness_range intn below max fits above in
          inr (rw large (above, low, high))
    ]

abbrev pub version_0_4_7 : Version
version_0_4_7 = record { major = pos 0; minor = pos 4; patch = pos 7; release = pos 0 }

abbrev pub version_0_4_8 : Version
version_0_4_8 = record { major = pos 0; minor = pos 4; patch = pos 8; release = pos 0 }

nonempty_iff : (xs : List String) → (ltb 0 (length xs) ≡ true) ↔ (xs ≢ [])
nonempty_iff [] = (λ h. cc, λ h. absurd (h refl))
nonempty_iff (x ∷ xs) = (λ h e. cc, λ h. ground arith)

both_iff : {A : Type 0} (a b : Bool) → ((a ≡ true) ↔ A) → ((a && b) ≡ true) ↔ (A × (b ≡ true))
both_iff true b h = (λ e. (h.0 refl, e), λ e. e.1)
both_iff false b h = (λ e. absurd (cc e), λ e. h.1 e.0)

-- A torrc turns on Conflux exactly for Tor 0.4.8 or later, and congestion control and the sandbox
-- exactly for Tor 0.4.7 or later, each only where the configuration asks for it; and it uses bridges
-- exactly where the instance has bridge lines.
pub features_are_gated :
    (join : String → String → String) (intn : ℕ → ℕ) (cfg : Config) (inst : Instance)
    → let ic = build_instance_config join intn cfg inst in
      ((ic.conflux_enabled ≡ true)
        ↔ ((inst.version ⊒ version_0_4_8) × (cfg.tor.conflux_enabled ≡ true)))
      × ((ic.congestion_control_auto ≡ true)
          ↔ ((inst.version ⊒ version_0_4_7) × (cfg.tor.congestion_control_auto ≡ true)))
      × ((ic.sandbox_enabled ≡ true) ↔ ((inst.version ⊒ version_0_4_7) × (cfg.tor.sandbox ≡ true)))
      × ((ic.use_bridges ≡ true) ↔ (inst.bridge_lines ≢ []))
unfolding build_instance_config supports_conflux supports_congestion_control supports_sandbox
features_are_gated join intn cfg inst =
    let v = inst.version in
    (
      both_iff (at_least v (pos 0) (pos 4) (pos 8) (pos 0)) cfg.tor.conflux_enabled
          (at_least_iff v version_0_4_8),
      both_iff (at_least v (pos 0) (pos 4) (pos 7) (pos 0)) cfg.tor.congestion_control_auto
          (at_least_iff v version_0_4_7),
      both_iff (at_least v (pos 0) (pos 4) (pos 7) (pos 0)) cfg.tor.sandbox
          (at_least_iff v version_0_4_7),
      nonempty_iff inst.bridge_lines,
    )
