-- ===== src/Tor/Manager/Ports.antt =====
-- The instances that the manager creates: one for each round of the two loops, in order.
use native.Mathlib.Nat.{zero-add, suc-add, add-zero}
use mathlib.Core.Path.{subst}
use splitter.Prelude.{
  ℕ, zero, suc, ◌+◌, ◌-◌, ◌*◌, ◌/◌, ◌^◌, ◌≤◌, ◌<◌, String, ◌≡◌, refl, sym, ap, ◌∙◌, ◌⊎◌, inl, inr,
  none, some, List, [], ◌∷◌, ◌++◌, arith, ltb, ltb→lt, Bool-cases, some-inj, length, get_elem?,
  length-append, ℤ, pos_part, ◌≤ℤ◌, ◌<ℤ◌, add64, mul64, add64-pos, mul64-pos, pos, negsuc,
}
use splitter.Config.Types.{Config}
use splitter.Config.Validate.{validate, last_port}
use splitter.Config.Validate.Accepts.{validate_sound}
use splitter.Tor.Version.{Version, at_least, supports_http_tunnel}
use splitter.Tor.Version.Features.{◌⊒◌, at_least_iff}
use splitter.Tor.Restart.{starting}
use splitter.Tor.Instance.{Instance, new_instance}
use splitter.Tor.Manager.{
  new_manager, make_instance, make_block, make_instances, create_from_version,
}

module _ {ℓ} {A : Type ℓ} where
  get_elem?-append_left :
      (xs ys : List A) (k : ℕ) → k < length xs → get_elem? (xs ++ ys) k ≡ get_elem? xs k
  get_elem?-append_left [] ys k h = absurd (omega arith)
  get_elem?-append_left (x ∷ xs) ys zero h = refl
  get_elem?-append_left (x ∷ xs) ys (suc k) h = get_elem?-append_left xs ys k (omega arith)

  get_elem?-append_right :
      (xs ys : List A) (k : ℕ) → get_elem? (xs ++ ys) (length xs + k) ≡ get_elem? ys k
  get_elem?-append_right [] ys k = rw zero-add
  get_elem?-append_right (x ∷ xs) ys k = rw suc-add (get_elem?-append_right xs ys k)

module _ (cfg : Config) (version : Version) where
  abbrev rounds : ℕ
  rounds = pos_part cfg.instances.per_country

  length-make_block :
      (country : String) (n id : ℕ) → length (make_block cfg version country n id) ≡ n
  unfolding make_block
  length-make_block country zero id = refl
  length-make_block country (suc n) id = ap suc (length-make_block country n (id + 1))

  get_elem?-make_block :
      (country : String) (n id k : ℕ)
      → k < n
      → get_elem? (make_block cfg version country n id) k
        ≡ some (make_instance cfg version country (id + k))
  unfolding make_block
  get_elem?-make_block country zero id k h = absurd (omega arith)
  get_elem?-make_block country (suc n) id zero h = rw add-zero
  get_elem?-make_block country (suc n) id (suc k) h =
      let e : id + 1 + k ≡ id + suc k = omega arith in
      rw (← e) (get_elem?-make_block country n (id + 1) k (omega arith))

  length-make_instances :
      (countries : List String) (id : ℕ)
      → length (make_instances cfg version countries id) ≡ rounds * length countries
  unfolding make_instances
  length-make_instances [] id = omega arith
  length-make_instances (c ∷ cs) id =
      length-append (make_block cfg version c rounds id)
        (make_instances cfg version cs (id + rounds))
      ∙ omega (arith, length-make_block c rounds id, length-make_instances cs (id + rounds))

div_below : (k n : ℕ) → k < n → k / n ≡ 0
div_below k n h = grind arith

div_above : (k n : ℕ) → 0 < n → (n + k) / n ≡ suc (k / n)
div_above k n h = grind arith

module _ (cfg : Config) (version : Version) where
  -- The instances of the first country, and those of the others behind them.
  first_block :
      (c : String) (later : List Instance) (n id k : ℕ)
      → k < n
      → get_elem? (make_block cfg version c n id ++ later) k
        ≡ some (make_instance cfg version c (id + k))
  first_block c later n id k lt =
      get_elem?-append_left (make_block cfg version c n id) later k
        (rw (length-make_block cfg version c n id) lt)
      ∙ get_elem?-make_block cfg version c n id k lt

  later_blocks :
      (c country : String) (later : List Instance) (n id j : ℕ)
      → get_elem? later j ≡ some (make_instance cfg version country (id + n + j))
      → get_elem? (make_block cfg version c n id ++ later) (n + j)
        ≡ some (make_instance cfg version country (id + (n + j)))
  later_blocks c country later n id j h =
      let block = make_block cfg version c n id in
      let start : length block + j ≡ n + j =
        ap (λ (l : ℕ). l + j) (length-make_block cfg version c n id) in
      let same : id + n + j ≡ id + (n + j) = omega arith in
      subst (λ s. get_elem? (block ++ later) s ≡ get_elem? later j) start
        (get_elem?-append_right block later j)
      ∙ h
      ∙ ap (λ i. some (make_instance cfg version country i)) same

  -- What stands at position `k`: the instance of the country whose turn it is.
  abbrev pub MadeAt : List String → List Instance → ℕ → ℕ → Type 0
  MadeAt countries instances id k =
      (country : String) × (get_elem? countries (k / rounds cfg version) ≡ some country)
      × (get_elem? instances k ≡ some (make_instance cfg version country (id + k)))

  get_elem?-make_instances :
      (countries : List String) (id k : ℕ)
      → k < rounds cfg version * length countries
      → MadeAt countries (make_instances cfg version countries id) id k
  unfolding make_instances
  get_elem?-make_instances [] id k h = absurd (omega arith)
  get_elem?-make_instances (c ∷ cs) id k h = elim (Bool-cases (ltb k n)) [
    | inl below ↦
        let lt = ltb→lt k n below in
        (c, rw (div_below k n lt), first_block c (make_instances cfg version cs (id + n)) n id k lt)
    | inr above ↦
        let split : n + (k - n) ≡ k = ground (arith, above) in
        let positive : 0 < n = grind (arith, h) in
        let (country, found, made) =
          get_elem?-make_instances cs (id + n) (k - n) (ground (arith, h, above)) in
        subst (MadeAt (c ∷ cs) (make_instances cfg version (c ∷ cs) id) id) split (
          country,
          rw (div_above (k - n) n positive) found,
          later_blocks c country (make_instances cfg version cs (id + n)) n id (k - n) made,
        )
  ]
    where
      n : ℕ
      n = rounds cfg version

created_at :
    (cfg : Config) (version : Version) (countries : List String)
    → let instances = (create_from_version cfg version countries new_manager).instances in
      (length instances ≡ pos_part cfg.instances.per_country * length countries)
      × ((k : ℕ)
          → k < pos_part cfg.instances.per_country * length countries
          → (country : String) × (get_elem? countries (k / pos_part cfg.instances.per_country)
              ≡ some country)
            × (get_elem? instances k ≡ some (make_instance cfg version country k)))
unfolding create_from_version new_manager
created_at cfg version countries = (
  length-make_instances cfg version countries 0,
  λ k h. at_zero k (get_elem?-make_instances cfg version countries 0 k h),
)
  where
    at_zero :
        (k : ℕ)
        → MadeAt cfg version countries (make_instances cfg version countries 0) 0 k
        → (country : String) × (get_elem? countries (k / pos_part cfg.instances.per_country)
            ≡ some country)
          × (get_elem? (make_instances cfg version countries 0) k
              ≡ some (make_instance cfg version country k))
    at_zero k (country, found, made) = (
      country,
      found,
      let e : 0 + k ≡ k = omega arith in
          subst
            (λ i.
              get_elem? (make_instances cfg version countries 0) k
              ≡ some (make_instance cfg version country i))
            e made,
    )

-- The instance at place `k`, made for this country: the HTTP port is given out from Tor 0.4.8 on.
abbrev pub IsMade : Config → Version → String → ℕ → Instance → Type 0
IsMade cfg version country k inst =
    (inst.id ≡ k)
    × (inst.country ≡ country)
    × (inst.version ≡ version)
    × (inst.state ≡ starting)
    × (inst.socks_port ≡ add64 cfg.tor.start_socks_port (pos k))
    × (inst.control_port ≡ add64 cfg.tor.start_control_port (pos k))
    × (((version ⊒ record { major = pos 0; minor = pos 4; patch = pos 8; release = pos 0 })
          × (inst.http_port ≡ add64 cfg.tor.start_http_port (pos k)))
        ⊎ (¬ (version ⊒ record { major = pos 0; minor = pos 4; patch = pos 8; release = pos 0 })
            × (inst.http_port ≡ pos 0)))

make_instance-IsMade :
    (cfg : Config) (version : Version) (country : String) (k : ℕ)
    → IsMade cfg version country k (make_instance cfg version country k)
unfolding make_instance supports_http_tunnel new_instance
make_instance-IsMade cfg version country k =
    let first : Version = record { major = pos 0; minor = pos 4; patch = pos 8; release = pos 0 } in
    let order = at_least_iff version first in
    elim (Bool-cases (at_least version (pos 0) (pos 4) (pos 8) (pos 0))) [
      | inl e ↦ (refl, refl, refl, refl, refl, refl, inl (order.0 e, rw e refl))
      | inr e ↦ (refl, refl, refl, refl, refl, refl, inr ((λ h. cc (e, order.1 h)), rw e refl))
    ]

-- The manager makes the configured number of instances for each country, and the k-th has the id `k`,
-- the SOCKS and the control port at distance `k` from the configured starts, the HTTP port at that
-- distance from its start for Tor 0.4.8 or later and no HTTP port before, and the country that is due;
-- it has the manager's version and has not been started.
pub create_from_version_lem :
    (cfg : Config) (version : Version) (countries : List String)
    → let instances = (create_from_version cfg version countries new_manager).instances in
      (length instances ≡ pos_part cfg.instances.per_country * length countries)
      × ((k : ℕ)
          → k < pos_part cfg.instances.per_country * length countries
          → (country : String) × (inst : Instance) × (get_elem? countries
                (k / pos_part cfg.instances.per_country)
              ≡ some country)
            × (get_elem? instances k ≡ some inst)
            × IsMade cfg version country k inst)
create_from_version_lem cfg version countries =
    let (long, each) = created_at cfg version countries in
    (
      long,
      λ k less.
          let (country, due, there) = each k less in
          (
            country,
            make_instance cfg version country k,
            due,
            there,
            make_instance-IsMade cfg version country k,
          ),
    )

get_elem?-lt {ℓ} :
    {A : Type ℓ} (xs : List A) (k : ℕ) {x : A} → get_elem? xs k ≡ some x → k < length xs
get_elem?-lt [] k h = cc
get_elem?-lt (y ∷ xs) zero h = omega arith
get_elem?-lt (y ∷ xs) (suc k) h = omega (arith, get_elem?-lt xs k h)

pos_pos_part : (z : ℤ) → pos 0 <ℤ z → pos (pos_part z) ≡ z
pos_pos_part (pos n) h = refl
pos_pos_part (negsuc n) h = absurd (omega arith)

add64_small : (s k : ℕ) → s ≤ 65535 → k < 2 ^ 62 → add64 (pos s) (pos k) ≡ pos (s + k)
add64_small s k hs hk = add64-pos s k (omega arith)

port_in_range :
    (z : ℤ) (a b k : ℕ)
    → (pos 0 ≤ℤ z) × (z ≤ℤ last_port)
    → a * b < 2 ^ 62
    → add64 z (mul64 (pos a) (pos b)) ≤ℤ last_port
    → k < a * b
    → (add64 z (pos k) ≡ pos (pos_part z + k)) × (pos_part z + k < 65535)
port_in_range (negsuc n) a b k (lo, hi) small range lt = absurd (omega arith)
port_in_range (pos s) a b k (lo, hi) small range lt =
    let total =
      rw (mul64-pos a b (omega arith), add64_small s (a * b) (omega arith) small) at range in
    (add64_small s k (omega arith) (omega arith), omega arith)

instance_at :
    (cfg : Config) (version : Version) (countries : List String) (k : ℕ) (inst : Instance)
    → get_elem? (create_from_version cfg version countries new_manager).instances k ≡ some inst
    → (k < pos_part cfg.instances.per_country * length countries)
      × (country : String) × (make_instance cfg version country k ≡ inst)
instance_at cfg version countries k inst at_k =
    let (total, made) = created_at cfg version countries in
    let lt =
      get_elem?-lt (create_from_version cfg version countries new_manager).instances k at_k in
    let below : k < pos_part cfg.instances.per_country * length countries = omega arith in
    let (country, found, there) = made k below in (below, country, some-inj (sym there ∙ at_k))

-- Under a valid configuration, with as many countries as it says and a number of instances below
-- 2 ^ 62, the SOCKS port of the k-th instance is the start port plus k, which is below 65535.
pub socks_port_in_range :
    (cfg : Config) (version : Version) (countries : List String)
    → validate cfg ≡ none
    → cfg.instances.countries ≡ pos (length countries)
    → pos_part cfg.instances.per_country * length countries < 2 ^ 62
    → (k : ℕ) (inst : Instance)
    → get_elem? (create_from_version cfg version countries new_manager).instances k ≡ some inst
    → (inst.id ≡ k)
      × (inst.socks_port ≡ pos (pos_part cfg.tor.start_socks_port + k))
      × (pos_part cfg.tor.start_socks_port + k < 65535)
socks_port_in_range cfg version countries valid enough small k inst at_k =
    let v = validate_sound cfg valid in
    let (below, country, same) = instance_at cfg version countries k inst at_k in
    let range = rw (enough, ← pos_pos_part cfg.instances.per_country v.per_country) at v.range in
    let (port, fits) =
      port_in_range cfg.tor.start_socks_port (pos_part cfg.instances.per_country) (length countries)
        k v.port_numbers.5 small range below in
    subst
      (λ (i : Instance).
        (i.id ≡ k)
        × (i.socks_port ≡ pos (pos_part cfg.tor.start_socks_port + k))
        × (pos_part cfg.tor.start_socks_port + k < 65535))
      same (unfold make_instance in (refl, port, fits))
