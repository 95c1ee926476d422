-- ===== src/Country/Examples.antt =====
-- internal/country: concrete runs.
use splitter.Prelude.{
  ℕ, ◌+◌, ◌-◌, ◌≤◌, String, ◌≡◌, refl, ◌⊎◌, inl, inr, Bool, true, false, ◌&&◌, some, List, [], ◌∷◌,
  map, arith, ltb, ◌==◌, if◌then◌else◌, Bool-cases, length, All, ◌≤ℤ◌, ◌<ℤ◌, count, IsInRange, pos,
}
use splitter.Config.Types.{Config}
use splitter.Config.Defaults.{defaults}
use splitter.Country.{
  InstanceInfo, InstanceRotator, select_random, filter_blacklisted, rotate_once, rotate_each,
  rotate_one, pick_different_country, new_daemon, start_daemon,
}
use splitter.Country.Choice.{selected, too_few}
use splitter.Country.Selection.{allowed, select_random_lem}
use splitter.Country.Rotation.{IsDraw}
use splitter.Country.Round.{call_all, IsCall, is_stuck, rotate_once_lem}
use splitter.Country.Switch.{Follows, update_all, switched_at_start}

-- A shuffle that exchanges the first two.
abbrev swap_first : ℕ → List (ℕ × ℕ)
swap_first n = if ltb 1 n then (0, 1) ∷ [] else []

swap_first-IsInRange : IsInRange swap_first
swap_first-IsInRange n = elim (Bool-cases (ltb 1 n)) [
  | inl e ↦ rw e ((ground arith, ground arith), tt)
  | inr e ↦ rw e tt
]

-- A draw of the last.
abbrev last : ℕ → ℕ
last n = n - 1

last-IsDraw : IsDraw last
last-IsDraw n h = omega arith

abbrev three : List String
three = "{US}" ∷ "{DE}" ∷ "{FR}" ∷ []

selects_two : select_random three ("{DE}" ∷ []) (pos 2) swap_first ≡ selected ("{FR}" ∷ "{US}" ∷ [])
unfolding select_random filter_blacklisted
selects_two = refl

select_random_lem_example :
    ((pos (count (allowed ("{DE}" ∷ [])) three) <ℤ pos 2)
      × (select_random three ("{DE}" ∷ []) (pos 2) swap_first ≡ too_few))
    ⊎ ((pos 2 ≤ℤ pos 0) × (select_random three ("{DE}" ∷ []) (pos 2) swap_first ≡ selected []))
    ⊎ ((cs : List String) × (select_random three ("{DE}" ∷ []) (pos 2) swap_first ≡ selected cs)
        × (pos 2 ≡ pos (length cs))
        × ((p : String → Bool) → count p cs ≤ count (λ c. allowed ("{DE}" ∷ []) c && p c) three))
select_random_lem_example =
    select_random_lem swap_first swap_first-IsInRange three ("{DE}" ∷ []) (pos 2)

-- A manager that only holds the countries.
abbrev moved : List InstanceInfo → ℕ → String → List InstanceInfo
moved [] id c = []
moved (i ∷ is) id c =
    let rest = moved is id c in if i.id == id then record i { country = c } ∷ is else i ∷ rest

abbrev store : InstanceRotator (List InstanceInfo)
store = record { get_instances = λ is. is; rotate_instance = λ is id c. (moved is id c, false) }

abbrev two : List InstanceInfo
two = record { id = 0; country = "{US}" } ∷ record { id = 1; country = "{FR}" } ∷ []

abbrev rotating : Config
rotating = record defaults {
  country = record {
    selected = "RANDOM";
    accepted = three;
    blacklisted = "{DE}" ∷ [];
    rotation = record { enabled = true; interval = pos 120; total_to_change = pos 1 };
    auto_countries = false;
  };
}

-- The round picks the instance 1, and moves it from France to the United States.
moves_one :
    rotate_once store swap_first (λ k. last) rotating two
    ≡ some (record { id = 0; country = "{US}" } ∷ record { id = 1; country = "{US}" } ∷ [])
unfolding rotate_once rotate_each rotate_one pick_different_country filter_blacklisted
moves_one = refl

rotate_once_lem_example :
    (calls : List (InstanceInfo × String)) × (rotate_once store swap_first (λ k. last) rotating two
      ≡ some (call_all store calls two))
    × (length calls ≤ 1)
    × (1 ≤ length calls + count (is_stuck three ("{DE}" ∷ [])) two)
    × All (IsCall three ("{DE}" ∷ [])) calls
    × ((p : InstanceInfo → Bool)
        → count p (map (λ (c : InstanceInfo × String). c.0) calls) ≤ count p two)
rotate_once_lem_example =
    rotate_once_lem store swap_first (λ k. last) swap_first-IsInRange (λ k. last-IsDraw) rotating
      two

abbrev resting : Config
resting = record rotating {
  country = record rotating.country {
    rotation = record rotating.country.rotation { enabled = false };
  };
}

switched_at_start_example :
    Follows (update_all (rotating ∷ []) (start_daemon (new_daemon resting))) false rotating
switched_at_start_example = switched_at_start resting (rotating ∷ [])
