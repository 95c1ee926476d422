-- ===== src/Tor/Version/Features.antt =====
-- The order of versions and what it says of the features.
use splitter.Prelude.{
  ◌≡◌, ◌∙◌, ◌↔◌, ◌⊎◌, inl, inr, Bool, true, false, List, [], ◌∷◌, arith, Bool-cases, ℤ, ◌≤ℤ◌, ◌<ℤ◌,
  ltb_ℤ, leb_ℤ, eqb_ℤ, eqb_ℤ_refl,
}
use splitter.Tor.Version.{
  Version, at_least, supports_conflux, supports_http_tunnel, supports_congestion_control,
  supports_cgo, supports_tls13, supports_sandbox, supports_happy_families, supports_post_quantum,
}

-- `w` is `v` or a later version: the order of the four numbers, the first that differs deciding.
abbrev pub ◌⊒◌ : Version → Version → Type 0
w ⊒ v =
    (v.major <ℤ w.major)
    ⊎ ((w.major ≡ v.major)
        × ((v.minor <ℤ w.minor)
            ⊎ ((w.minor ≡ v.minor)
                × ((v.patch <ℤ w.patch) ⊎ ((w.patch ≡ v.patch) × (v.release ≤ℤ w.release))))))

infix 50 ◌⊒◌
eqb_ℤ-true : (a b : ℤ) → eqb_ℤ a b ≡ true → a ≡ b
eqb_ℤ-true a b h = ground arith

at_least_sound : (w v : Version) → at_least w v.major v.minor v.patch v.release ≡ true → w ⊒ v
unfolding at_least
at_least_sound w v h = elim (Bool-cases (eqb_ℤ w.major v.major)) [
  | inr e ↦ inl (ground (arith, h, e))
  | inl e ↦ inr (
    eqb_ℤ-true w.major v.major e,
    elim (Bool-cases (eqb_ℤ w.minor v.minor)) [
      | inr f ↦ inl (ground (arith, h, e, f))
      | inl f ↦ inr (
        eqb_ℤ-true w.minor v.minor f,
        elim (Bool-cases (eqb_ℤ w.patch v.patch)) [
          | inr g ↦ inl (ground (arith, h, e, f, g))
          | inl g ↦ inr (eqb_ℤ-true w.patch v.patch g, ground (arith, h, e, f, g))
        ],
      )
    ],
  )
]

later_ne : (a b : ℤ) → a <ℤ b → eqb_ℤ b a ≡ false
later_ne a b h = ground arith

lt→ltb_ℤ : (a b : ℤ) → a <ℤ b → ltb_ℤ a b ≡ true
lt→ltb_ℤ a b h = ground arith

le→leb_ℤ : (a b : ℤ) → a ≤ℤ b → leb_ℤ a b ≡ true
le→leb_ℤ a b h = ground arith

at_least_complete : (w v : Version) → w ⊒ v → at_least w v.major v.minor v.patch v.release ≡ true
unfolding at_least
at_least_complete w v (inl h) = rw (later_ne v.major w.major h) (lt→ltb_ℤ v.major w.major h)
at_least_complete w v (inr (e, inl h)) =
    rw (e, eqb_ℤ_refl v.major, later_ne v.minor w.minor h) (lt→ltb_ℤ v.minor w.minor h)
at_least_complete w v (inr (e, inr (f, inl h))) =
    rw (e, eqb_ℤ_refl v.major, f, eqb_ℤ_refl v.minor, later_ne v.patch w.patch h)
      (lt→ltb_ℤ v.patch w.patch h)
at_least_complete w v (inr (e, inr (f, inr (g, h)))) =
    rw (e, eqb_ℤ_refl v.major, f, eqb_ℤ_refl v.minor, g, eqb_ℤ_refl v.patch)
      (le→leb_ℤ v.release w.release h)

-- `atLeast` decides the lexicographic order of the four numbers of a version.
pub at_least_iff : (w v : Version) → (at_least w v.major v.minor v.patch v.release ≡ true) ↔ (w ⊒ v)
at_least_iff w v = (at_least_sound w v, at_least_complete w v)

⊒_trans : (u v w : Version) → u ⊒ v → v ⊒ w → u ⊒ w
⊒_trans u v w (inl h) (inl k) = inl (omega arith)
⊒_trans u v w (inl h) (inr (e, k)) = inl (rw (← e) h)
⊒_trans u v w (inr (e, h)) (inl k) = inl (rw e k)
⊒_trans u v w (inr (e, h)) (inr (e', k)) = inr (e ∙ e', minors h k)
  where
    patches :
        (u.patch ≡ v.patch) × (v.release ≤ℤ u.release)
        → (v.patch ≡ w.patch) × (w.release ≤ℤ v.release)
        → (u.patch ≡ w.patch) × (w.release ≤ℤ u.release)
    patches (g, h) (g', k) = (g ∙ g', omega arith)

    lower :
        (v.patch <ℤ u.patch) ⊎ ((u.patch ≡ v.patch) × (v.release ≤ℤ u.release))
        → (w.patch <ℤ v.patch) ⊎ ((v.patch ≡ w.patch) × (w.release ≤ℤ v.release))
        → (w.patch <ℤ u.patch) ⊎ ((u.patch ≡ w.patch) × (w.release ≤ℤ u.release))
    lower (inl h) (inl k) = inl (omega arith)
    lower (inl h) (inr (e, k)) = inl (rw (← e) h)
    lower (inr (e, h)) (inl k) = inl (rw e k)
    lower (inr h) (inr k) = inr (patches h k)

    minors :
        (v.minor <ℤ u.minor)
          ⊎ ((u.minor ≡ v.minor)
              × ((v.patch <ℤ u.patch) ⊎ ((u.patch ≡ v.patch) × (v.release ≤ℤ u.release))))
        → (w.minor <ℤ v.minor)
          ⊎ ((v.minor ≡ w.minor)
              × ((w.patch <ℤ v.patch) ⊎ ((v.patch ≡ w.patch) × (w.release ≤ℤ v.release))))
        → (w.minor <ℤ u.minor)
          ⊎ ((u.minor ≡ w.minor)
              × ((w.patch <ℤ u.patch) ⊎ ((u.patch ≡ w.patch) × (w.release ≤ℤ u.release))))
    minors (inl h) (inl k) = inl (omega arith)
    minors (inl h) (inr (e, k)) = inl (rw (← e) h)
    minors (inr (e, h)) (inl k) = inl (rw e k)
    minors (inr (e, h)) (inr (e', k)) = inr (e ∙ e', lower h k)

-- The features that a version has, as the log of `DetectAndCreate` lists them.
abbrev pub features : Version → List Bool
features v =
    supports_conflux v
    ∷ supports_http_tunnel v
    ∷ supports_congestion_control v
    ∷ supports_cgo v
    ∷ supports_tls13 v
    ∷ supports_sandbox v
    ∷ supports_happy_families v
    ∷ supports_post_quantum v
    ∷ []

-- Each that is true in the first list is true in the second.
abbrev pub AllKept : List Bool → List Bool → Type 0
AllKept (a ∷ s) (b ∷ t) = (a ≡ true → b ≡ true) × AllKept s t
AllKept _ _ = Unit

at_least_mono :
    (w v : Version) (a b c d : ℤ) → w ⊒ v → at_least v a b c d ≡ true → at_least w a b c d ≡ true
at_least_mono w v a b c d h e =
    let t : Version = record { major = a; minor = b; patch = c; release = d } in
    at_least_complete w t (⊒_trans w v t h (at_least_sound v t e))

-- A later version has every feature that a version has.
pub features_kept : (w v : Version) → w ⊒ v → AllKept (features v) (features w)
unfolding supports_conflux supports_http_tunnel supports_congestion_control supports_cgo
    supports_tls13 supports_sandbox supports_happy_families supports_post_quantum
features_kept w v h = (
  at_least_mono w v _ _ _ _ h,
  (
    at_least_mono w v _ _ _ _ h,
    (
      at_least_mono w v _ _ _ _ h,
      (
        at_least_mono w v _ _ _ _ h,
        (
          at_least_mono w v _ _ _ _ h,
          (
            at_least_mono w v _ _ _ _ h,
            (at_least_mono w v _ _ _ _ h, (at_least_mono w v _ _ _ _ h, tt)),
          ),
        ),
      ),
    ),
  ),
)
