-- ===== src/Tor/Manager/Countries.antt =====
-- internal/tor/manager.go: how many instances each country is given.
use splitter.Prelude.{
  ℕ, zero, suc, ◌+◌, ◌*◌, String, ◌≡◌, inl, inr, Bool, List, [], ◌∷◌, ◌++◌, arith, str_eq,
  if◌then◌else◌, Bool-cases, pos_part, count,
}
use splitter.Config.Types.{Config}
use splitter.Tor.Version.{Version}
use splitter.Tor.Instance.{Instance, new_instance}
use splitter.Tor.Manager.{
  new_manager, make_instance, make_block, make_instances, create_from_version,
}

abbrev pub is_in : String → Instance → Bool
is_in country inst = str_eq inst.country country

count-append :
    {A : Type 0} (p : A → Bool) (xs ys : List A) → count p (xs ++ ys) ≡ count p xs + count p ys
count-append p [] ys = omega arith
count-append p (x ∷ xs) ys = omega (arith, count-append p xs ys)

count-make_block :
    (cfg : Config) (version : Version) (country c : String) (n id : ℕ)
    → count (is_in country) (make_block cfg version c n id) ≡ (if str_eq c country then n else 0)
unfolding make_block make_instance new_instance
count-make_block cfg version country c zero id = ground arith
count-make_block cfg version country c (suc n) id =
    ground (arith, count-make_block cfg version country c n (id + 1))

count-make_instances :
    (cfg : Config) (version : Version) (country : String) (countries : List String) (id : ℕ)
    → count (is_in country) (make_instances cfg version countries id)
      ≡ pos_part cfg.instances.per_country * count (λ c. str_eq c country) countries
unfolding make_instances
count-make_instances cfg version country [] id = omega arith
count-make_instances cfg version country (c ∷ cs) id =
    let n = pos_part cfg.instances.per_country in
    let both =
      count-append (is_in country) (make_block cfg version c n id)
        (make_instances cfg version cs (id + n)) in
    let first = count-make_block cfg version country c n id in
    let later = count-make_instances cfg version country cs (id + n) in
    elim (Bool-cases (str_eq c country)) [
      | inl e ↦ let here = rw e at first in rw e (omega (arith, both, here, later))
      | inr e ↦ let here = rw e at first in rw e (omega (arith, both, here, later))
    ]

-- Each country gets the configured number of instances, as often as it is in the list.
pub count-create_from_version :
    (cfg : Config) (version : Version) (countries : List String) (country : String)
    → count (is_in country) (create_from_version cfg version countries new_manager).instances
      ≡ pos_part cfg.instances.per_country * count (λ c. str_eq c country) countries
unfolding create_from_version new_manager
count-create_from_version cfg version countries country =
    count-make_instances cfg version country countries 0
