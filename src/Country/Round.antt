-- ===== src/Country/Round.antt =====
-- internal/country/daemon.go: what one round of the daemon, `rotateOnce`, asks of the manager.
use splitter.Prelude.{
  ℕ, zero, suc, ◌+◌, ◌≤◌, ◌<◌, min, String, ◌≡◌, refl, ap, ◌∙◌, inl, inr, Bool, false, not, ◌&&◌,
  Option, none, some, List, [], ◌∷◌, map, arith, str_eq, ltb, ◌==◌, Bool-cases, length, get_elem?,
  take, length-take, All, All-take, pos_part, leb_ℤ, count, get_elem?-in, IsInRange,
  shuffled-IsPermutation, count-take, pos,
}
use splitter.Config.Types.{Config}
use splitter.Country.{InstanceInfo, InstanceRotator, rotate_one, rotate_each, indices, rotate_once}
use splitter.Country.Selection.{allowed}
use splitter.Country.Rotation.{IsDraw, IsAlternative, pick_different_country_lem}

-- The state after these rotations, whether they succeed or fail.
abbrev pub call_all : {S : Type 0} → InstanceRotator S → List (InstanceInfo × String) → S → S
call_all rotator [] s = s
call_all rotator ((inst, c) ∷ rest) s =
    call_all rotator rest (rotator.rotate_instance s inst.id c).0

abbrev pub IsCall : List String → List String → InstanceInfo × String → Type 0
IsCall accepted blacklisted (inst, c) = IsAlternative accepted blacklisted inst.country c

-- An instance that no alternative is left for.
abbrev pub is_stuck : List String → List String → InstanceInfo → Bool
is_stuck accepted blacklisted inst =
    count (λ d. allowed blacklisted d && not (str_eq d inst.country)) accepted == 0

abbrev at_index : (InstanceInfo → Bool) → List InstanceInfo → ℕ → Bool
at_index p instances i = elim (get_elem? instances i) [ none ↦ false | some inst ↦ p inst ]

count-indices :
    (p : InstanceInfo → Bool) (xs : List InstanceInfo) (from : ℕ) (r : ℕ → Bool)
    → ((i : ℕ) → r (from + i) ≡ at_index p xs i)
    → count r (indices from (length xs)) ≡ count p xs
count-indices p [] from r h = refl
count-indices p (x ∷ xs) from r h =
    let rest =
      count-indices p xs (from + 1) r
        (λ i. let same : from + 1 + i ≡ from + suc i = omega arith in rw same (h (suc i))) in
    let here : from + 0 ≡ from = omega arith in
    let first : r from ≡ p x = rw here at (h 0) in rw first (omega (arith, rest))

length-indices : (from n : ℕ) → length (indices from n) ≡ n
length-indices from zero = refl
length-indices from (suc n) = ap suc (length-indices (from + 1) n)

indices-below : (n from k : ℕ) → from + k ≤ n → count (λ i. not (ltb i n)) (indices from k) ≡ 0
indices-below n from zero h = refl
indices-below n from (suc k) h =
    let rest = indices-below n (from + 1) k (omega arith) in ground arith

All-count : (n : ℕ) (is : List ℕ) → count (λ i. not (ltb i n)) is ≡ 0 → All (λ i. i < n) is
All-count n [] h = tt
All-count n (i ∷ is) h = (ground arith, All-count n is (ground arith))

module _ {S : Type 0} (rotator : InstanceRotator S) (accepted blacklisted : List String) where
  abbrev Calls : List InstanceInfo → List ℕ → Option S → S → Type 0
  Calls instances is result s =
      (calls : List (InstanceInfo × String)) × (result ≡ some (call_all rotator calls s))
      × (length calls ≤ length is)
      × (length is ≤ length calls + count (at_index (is_stuck accepted blacklisted) instances) is)
      × All (IsCall accepted blacklisted) calls
      × ((p : InstanceInfo → Bool)
          → count p (map (λ (c : InstanceInfo × String). c.0) calls)
            ≤ count (at_index p instances) is)

  rotate_each_lem :
      (intn : ℕ → ℕ → ℕ)
      → ((k : ℕ) → IsDraw (intn k))
      → (instances : List InstanceInfo) (k : ℕ) (is : List ℕ) → All (λ i. i < length instances) is
      → (s : S)
      → Calls instances is (rotate_each rotator accepted blacklisted intn instances k is s) s
  unfolding rotate_each rotate_one
  rotate_each_lem intn h instances k [] below s =
      ([], refl, omega arith, omega arith, tt, λ p. omega arith)
  rotate_each_lem intn h instances k (i ∷ is) (hi, below) s =
      let (inst, at) = get_elem?-in instances i hi in
      elim (pick_different_country_lem (intn k) (h k) inst.country accepted blacklisted) [
        | inl (c, e, alternative) ↦
            let (calls, result, long, enough, good, once) =
              rotate_each_lem intn h instances (k + 1) is below
                (rotator.rotate_instance s inst.id c).0 in
            (
              (inst, c) ∷ calls,
              rw (at, rotate_each) (rw e result),
              omega arith,
              omega arith,
              (alternative, good),
              λ p. rw (at, at_index) (omega (arith, once p)),
            )
        | inr (e, none_left) ↦
            let (calls, result, long, enough, good, once) =
              rotate_each_lem intn h instances (k + 1) is below s in
            (
              calls,
              rw (at, rotate_each) (rw e result),
              omega arith,
              rw (at, at_index) (rw none_left (omega arith)),
              good,
              λ p. omega (arith, once p),
            )
      ]

-- With exchanges inside of their slice and draws below their bound, a round does not panic, and all
-- that it does is ask for rotations, of at most `total_to_change` instances and each of them once. Each
-- goes to an accepted country off the blacklist other than the instance's own. As many instances are
-- asked for as `total_to_change` says, or all of them, less those that no such country is left for.
pub rotate_once_lem :
    {S : Type 0} (rotator : InstanceRotator S) (shuffle : ℕ → List (ℕ × ℕ)) (intn : ℕ → ℕ → ℕ)
    → IsInRange shuffle
    → ((k : ℕ) → IsDraw (intn k))
    → (cfg : Config) (s : S)
    → let instances = rotator.get_instances s in
      let accepted = cfg.country.accepted in
      let blacklisted = cfg.country.blacklisted in
      let wanted = min (pos_part cfg.country.rotation.total_to_change) (length instances) in
      (calls : List (InstanceInfo × String)) × (rotate_once rotator shuffle intn cfg s
        ≡ some (call_all rotator calls s))
      × (length calls ≤ wanted)
      × (wanted ≤ length calls + count (is_stuck accepted blacklisted) instances)
      × All (IsCall accepted blacklisted) calls
      × ((p : InstanceInfo → Bool)
          → count p (map (λ (c : InstanceInfo × String). c.0) calls) ≤ count p instances)
unfolding rotate_once
rotate_once_lem rotator shuffle intn h draws cfg s =
    let instances = rotator.get_instances s in
    let total = cfg.country.rotation.total_to_change in
    let accepted = cfg.country.accepted in
    let blacklisted = cfg.country.blacklisted in
    let n = min (pos_part total) (length instances) in
    let (order, at, long, same) = shuffled-IsPermutation shuffle h (indices 0 (length instances)) in
    let visited = take n order in
    let below : All (λ i. i < length instances) visited =
      All-take (λ i. i < length instances) n order
        (All-count (length instances) order (
          same (λ i. not (ltb i (length instances)))
          ∙ indices-below (length instances) 0 (length instances) (omega arith))) in
    let visits : (p : InstanceInfo → Bool)
        → count (at_index p instances) visited ≤ count p instances =
      λ p. omega (
        arith,
        count-take (at_index p instances) n order,
        same (at_index p instances),
        count-indices p instances 0 (at_index p instances)
            (λ i. let start : 0 + i ≡ i = omega arith in rw start refl),
      ) in
    elim (Bool-cases (length instances == 0)) [
      | inl e ↦ ([], rw e refl, omega arith, ground arith, tt, λ p. omega arith)
      | inr e ↦ elim (Bool-cases (leb_ℤ total (pos 0))) [
        | inl e' ↦ ([], rw e (rw e' refl), omega arith, ground arith, tt, λ p. omega arith)
        | inr e' ↦
            let (calls, result, few, enough, good, once) =
              rotate_each_lem rotator accepted blacklisted intn draws instances 0 visited below s in
            (
              calls,
              rw e (rw e' (rw at result)),
              omega (arith, few, length-take n order),
              omega (
                arith,
                enough,
                visits (is_stuck accepted blacklisted),
                length-take n order,
                long,
                length-indices 0 (length instances),
              ),
              good,
              λ p. omega (arith, once p, visits p),
            )
      ]
    ]
