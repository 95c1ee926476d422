-- ===== src/Haproxy/Ports.antt =====
-- internal/haproxy/config.go, with the instances of internal/tor/manager.go and the configuration of
-- internal/config: the ports that HAProxy sends SOCKS connections to.
use splitter.Prelude.{
  ℕ, suc, ◌+◌, ◌*◌, ◌^◌, ◌<◌, String, ◌≡◌, refl, ap, ◌∙◌, ◌&&◌, none, some, List, [], ◌∷◌, arith,
  ltb, leb, if◌then◌else◌, length, get_elem?, pos_part, eqb_ℤ, count, IsInRange, pos,
}
use splitter.Config.Types.{Config}
use splitter.Config.Validate.{validate}
use splitter.Tor.Version.{Version}
use splitter.Tor.Instance.{Instance}
use splitter.Tor.Manager.{create_from_version, new_manager}
use splitter.Tor.Manager.Ports.{create_from_version_lem, socks_port_in_range}
use splitter.Haproxy.{ConfigData, Backend, build_config_data}
use splitter.Haproxy.Backends.{build_config_data_lem}

-- How many backends have this port.
abbrev pub count_port : ℕ → List Backend → ℕ
count_port q bs = count (λ (b : Backend). eqb_ℤ b.port (pos q)) bs

-- One if the number is among the `n` from `start` on, and else none.
abbrev pub within : ℕ → ℕ → ℕ → ℕ
within start n q = if leb start q && ltb q (start + n) then 1 else 0

count-socks_port :
    (q : ℕ) (xs : List Instance) (start : ℕ)
    → ((k : ℕ) (inst : Instance) → get_elem? xs k ≡ some inst → inst.socks_port ≡ pos (start + k))
    → count (λ inst. eqb_ℤ inst.socks_port (pos q)) xs ≡ within start (length xs) q
count-socks_port q [] start h = ground arith
count-socks_port q (x ∷ xs) start h =
    let next : (k : ℕ) (inst : Instance)
        → get_elem? xs k ≡ some inst
        → inst.socks_port ≡ pos (start + 1 + k) =
      λ k inst at. h (suc k) inst at ∙ ap pos (omega arith) in
    let rest = count-socks_port q xs (start + 1) next in
    let first = h 0 x refl in rw first (ground arith)

-- Under a valid configuration, with as many countries as it says and a number of instances below 2 ^ 62,
-- and with exchanges inside of their slices, the SOCKS backends of HAProxy stand for the ports from the configured start on, as many as
-- there are instances: each of those ports has one backend, and no other port has any.
pub one_backend_each :
    (shuffle_http shuffle_socks : ℕ → List (ℕ × ℕ))
    → IsInRange shuffle_http
    → IsInRange shuffle_socks
    → (cfg : Config) (version : Version) (countries : List String) (password : String)
    → validate cfg ≡ none
    → cfg.instances.countries ≡ pos (length countries)
    → pos_part cfg.instances.per_country * length countries < 2 ^ 62
    → let instances = (create_from_version cfg version countries new_manager).instances in
      let n = pos_part cfg.instances.per_country * length countries in
      (d : ConfigData) × (build_config_data shuffle_http shuffle_socks cfg instances password
        ≡ some d)
      × ((q : ℕ) → count_port q d.socks_backends ≡ within (pos_part cfg.tor.start_socks_port) n q)
one_backend_each shuffle_http shuffle_socks hh hs cfg version countries password valid enough
      small =
    let instances = (create_from_version cfg version countries new_manager).instances in
    let (d, built, socks, _) =
      build_config_data_lem shuffle_http shuffle_socks hh hs cfg instances password in
    let (total, _) = create_from_version_lem cfg version countries in
    (
      d,
      built,
      λ q.
          socks (λ (b : Backend). eqb_ℤ b.port (pos q))
          ∙ count-socks_port q instances (pos_part cfg.tor.start_socks_port) (λ k inst at.
            (socks_port_in_range cfg version countries valid enough small k inst at).1)
          ∙ ap (λ n. within (pos_part cfg.tor.start_socks_port) n q) total,
    )
