-- ===== src/Cmd/Rotator.antt =====
-- internal/country/daemon.go over internal/tor/manager.go, as cmd/run.go joins them: what a round of the
-- daemon does to the manager's instances.
use splitter.Prelude.{
  ℕ, ◌<◌, String, ◌≡◌, refl, ◌∙◌, ◌⊎◌, inl, inr, ◌&&◌, some, List, [], ◌∷◌, str_eq, ◌==◌,
  Bool-cases, All, count, IsInRange,
}
use splitter.Config.Types.{Config}
use splitter.Tor.Instance.{Instance, StartOutcome}
use splitter.Tor.Manager.{TorManager, rotate_instance}
use splitter.Tor.Manager.Rotate.{rotated, replace_first, rotate_in_lem}
use splitter.Country.{InstanceInfo, rotate_once}
use splitter.Country.Selection.{allowed}
use splitter.Country.Rotation.{IsDraw}
use splitter.Country.Round.{call_all, IsCall, rotate_once_lem}
use splitter.Cmd.{tor_rotator}

-- A country that is accepted and off the blacklist.
abbrev pub IsPermitted : Config → String → Type 0
IsPermitted cfg c =
    0 < count (λ d. allowed cfg.country.blacklisted d && str_eq d c) cfg.country.accepted

-- The same instance, with its ports, in its old country or in a permitted one.
abbrev pub IsMoved : Config → Instance → Instance → Type 0
IsMoved cfg old new =
    (new.id ≡ old.id)
    × (new.socks_port ≡ old.socks_port)
    × (new.control_port ≡ old.control_port)
    × (new.http_port ≡ old.http_port)
    × ((new.country ≡ old.country) ⊎ IsPermitted cfg new.country)

-- The lists agree, instance by instance.
abbrev pub Pointwise : Config → List Instance → List Instance → Type 0
Pointwise cfg [] [] = Unit
Pointwise cfg (x ∷ xs) (y ∷ ys) = IsMoved cfg x y × Pointwise cfg xs ys
Pointwise cfg _ _ = ⊥

Pointwise-refl : (cfg : Config) (xs : List Instance) → Pointwise cfg xs xs
Pointwise-refl cfg [] = tt
Pointwise-refl cfg (x ∷ xs) = ((refl, refl, refl, refl, inl refl), Pointwise-refl cfg xs)

IsMoved-trans :
    (cfg : Config) (x y z : Instance) → IsMoved cfg x y → IsMoved cfg y z → IsMoved cfg x z
IsMoved-trans cfg x y z (a, b, c, d, inl e) (a', b', c', d', inl e') =
    (a' ∙ a, b' ∙ b, c' ∙ c, d' ∙ d, inl (e' ∙ e))
IsMoved-trans cfg x y z (a, b, c, d, inr p) (a', b', c', d', inl e') =
    (a' ∙ a, b' ∙ b, c' ∙ c, d' ∙ d, inr (rw e' p))
IsMoved-trans cfg x y z (a, b, c, d, _) (a', b', c', d', inr p) =
    (a' ∙ a, b' ∙ b, c' ∙ c, d' ∙ d, inr p)

Pointwise-trans :
    (cfg : Config) (xs ys zs : List Instance)
    → Pointwise cfg xs ys
    → Pointwise cfg ys zs
    → Pointwise cfg xs zs
Pointwise-trans cfg [] [] [] h k = tt
Pointwise-trans cfg [] [] (z ∷ zs) h k = k
Pointwise-trans cfg [] (y ∷ ys) zs h k = absurd h
Pointwise-trans cfg (x ∷ xs) [] zs h k = absurd h
Pointwise-trans cfg (x ∷ xs) (y ∷ ys) [] h k = k
Pointwise-trans cfg (x ∷ xs) (y ∷ ys) (z ∷ zs) (h, hs) (k, ks) =
    (IsMoved-trans cfg x y z h k, Pointwise-trans cfg xs ys zs hs ks)

replace_first-Pointwise :
    (cfg : Config) (outcome : StartOutcome) (c : String)
    → IsPermitted cfg c
    → (id : ℕ) (xs : List Instance) → Pointwise cfg xs (replace_first id (rotated outcome c) xs)
replace_first-Pointwise cfg outcome c h id [] = tt
replace_first-Pointwise cfg outcome c h id (x ∷ xs) = elim (Bool-cases (x.id == id)) [
  | inl e ↦ rw e ((refl, refl, refl, refl, inr h), Pointwise-refl cfg xs)
  | inr e ↦ rw e ((refl, refl, refl, refl, inl refl), replace_first-Pointwise cfg outcome c h id xs)
]

call_all-Pointwise :
    (cfg : Config) (outcome : ℕ → String → StartOutcome) (calls : List (InstanceInfo × String))
    (m : TorManager)
    → All (IsCall cfg.country.accepted cfg.country.blacklisted) calls
    → Pointwise cfg m.instances (call_all (tor_rotator outcome) calls m).instances
unfolding tor_rotator rotate_instance
call_all-Pointwise cfg outcome [] m h = Pointwise-refl cfg m.instances
call_all-Pointwise cfg outcome ((inst, c) ∷ rest) m ((permitted, _), h) =
    let next = (rotate_instance (outcome inst.id c) m inst.id c).0 in
    let first : Pointwise cfg m.instances next.instances =
      rw (rotate_in_lem (outcome inst.id c) inst.id c m.instances)
        (replace_first-Pointwise cfg (outcome inst.id c) c permitted inst.id m.instances) in
    Pointwise-trans cfg m.instances next.instances
      (call_all (tor_rotator outcome) rest next).instances first
      (call_all-Pointwise cfg outcome rest next h)

-- With exchanges inside of their slice and draws below their bound, a round of the daemon on the manager
-- does not panic. It adds and removes no instance, and each keeps its id and its ports; its country is
-- the old one, or accepted and off the blacklist, however the starts of the new processes end.
pub round_on_manager :
    (outcome : ℕ → String → StartOutcome) (shuffle : ℕ → List (ℕ × ℕ)) (intn : ℕ → ℕ → ℕ)
    → IsInRange shuffle
    → ((k : ℕ) → IsDraw (intn k))
    → (cfg : Config) (m : TorManager)
    → (m' : TorManager) × (rotate_once (tor_rotator outcome) shuffle intn cfg m ≡ some m')
      × Pointwise cfg m.instances m'.instances
round_on_manager outcome shuffle intn h draws cfg m =
    let (calls, result, _, _, good, _) =
      rotate_once_lem (tor_rotator outcome) shuffle intn h draws cfg m in
    (call_all (tor_rotator outcome) calls m, result, call_all-Pointwise cfg outcome calls m good)
