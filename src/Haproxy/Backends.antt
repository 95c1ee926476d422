-- ===== src/Haproxy/Backends.antt =====
-- internal/haproxy/config.go: the backends of `BuildConfigData`.
use splitter.Prelude.{
  ℕ, String, ◌≡◌, refl, ◌∙◌, Bool, not, ◌&&◌, ◌||◌, some, List, [], ◌∷◌, arith, str_eq,
  if◌then◌else◌, ltb_ℤ, count, IsInRange, shuffled-IsPermutation, pos,
}
use splitter.Config.Types.{Config}
use splitter.Tor.Instance.{Instance}
use splitter.Haproxy.{
  Backend, ConfigData, socks_backend, tunnel_backend, privoxy_backend, http_list, socks_list,
  build_config_data, config_data,
}

-- The instance's backend for HTTP in this mode, and whether it has one.
abbrev pub http_backend : Config → Instance → Backend
http_backend cfg inst =
    if str_eq cfg.proxy_mode "native" then tunnel_backend cfg inst else privoxy_backend cfg inst

abbrev pub serves_http : Config → Instance → Bool
serves_http cfg inst = not (str_eq cfg.proxy_mode "native") || ltb_ℤ (pos 0) inst.http_port

count-http_list :
    (cfg : Config) (p : Backend → Bool) (instances : List Instance)
    → count p (http_list cfg instances)
      ≡ count (λ inst. serves_http cfg inst && p (http_backend cfg inst)) instances
unfolding http_list
count-http_list cfg p [] = refl
count-http_list cfg p (inst ∷ rest) = ground (arith, count-http_list cfg p rest)

count-socks_list :
    (cfg : Config) (p : Backend → Bool) (instances : List Instance)
    → count p (socks_list cfg instances) ≡ count (λ inst. p (socks_backend cfg inst)) instances
unfolding socks_list
count-socks_list cfg p [] = refl
count-socks_list cfg p (inst ∷ rest) = omega (arith, count-socks_list cfg p rest)

-- With exchanges inside of their slices, `BuildConfigData` does not panic, and its backends are, in some
-- order, one for SOCKS for each instance, and one for HTTP for each instance with an HTTP port in native
-- mode and for each instance in the other mode.
pub build_config_data_lem :
    (shuffle_http shuffle_socks : ℕ → List (ℕ × ℕ))
    → IsInRange shuffle_http
    → IsInRange shuffle_socks
    → (cfg : Config) (instances : List Instance) (password : String)
    → (d : ConfigData) × (build_config_data shuffle_http shuffle_socks cfg instances password
        ≡ some d)
      × ((p : Backend → Bool)
          → count p d.socks_backends ≡ count (λ inst. p (socks_backend cfg inst)) instances)
      × ((p : Backend → Bool)
          → count p d.http_backends
            ≡ count (λ inst. serves_http cfg inst && p (http_backend cfg inst)) instances)
unfolding build_config_data
build_config_data_lem shuffle_http shuffle_socks hh hs cfg instances password =
    let (http, at_http, _, same_http) =
      shuffled-IsPermutation shuffle_http hh (http_list cfg instances) in
    let (socks, at_socks, _, same_socks) =
      shuffled-IsPermutation shuffle_socks hs (socks_list cfg instances) in
    (
      config_data cfg password http socks,
      rw at_http (rw at_socks refl),
      λ p. same_socks p ∙ count-socks_list cfg p instances,
      λ p. same_http p ∙ count-http_list cfg p instances,
    )
