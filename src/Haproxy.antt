-- ===== src/Haproxy.antt =====
-- internal/haproxy: the values that the HAProxy file is rendered from, and the manager of its process.
pub mod Backends
pub mod Ports
mod Examples
use splitter.Prelude.{
  ℕ, String, Bool, true, false, Option, none, some, List, [], ◌∷◌, str_eq, ◌==◌, if◌then◌else◌, ℤ,
  ltb_ℤ, add64, decimal, shuffled, pos,
}
use Prim.Native.String.{◌++◌ as text_append}
use splitter.Config.Types.{Config}
use splitter.Tor.Instance.{Instance}

pub record Backend : Type 0 where
  pub name : String
  pub address : String
  pub port : ℤ
  pub check_interval : ℤ
  pub max_fail : ℤ
  pub min_success : ℤ

pub record ConfigData : Type 0 where
  pub listen : String
  pub socks_port : ℤ
  pub http_port : ℤ
  pub stats_listen : String
  pub stats_port : ℤ
  pub stats_uri : String
  pub stats_password : String
  pub client_timeout : ℤ
  pub server_timeout : ℤ
  pub retries : ℤ
  pub balance_algorithm : String
  pub check_interval : ℤ
  pub max_fail : ℤ
  pub min_success : ℤ
  pub http_backends : List Backend
  pub socks_backends : List Backend

abbrev pub backend : Config → String → ℤ → Backend
backend cfg name port = record {
  name = name;
  address = "127.0.0.1";
  port = port;
  check_interval = cfg.health_check.interval;
  max_fail = cfg.health_check.max_fail;
  min_success = cfg.health_check.minimum_success;
}

abbrev pub socks_backend : Config → Instance → Backend
socks_backend cfg inst = backend cfg (text_append "tor_socks_" (decimal inst.id)) inst.socks_port

abbrev pub tunnel_backend : Config → Instance → Backend
tunnel_backend cfg inst = backend cfg (text_append "tor_http_" (decimal inst.id)) inst.http_port

abbrev pub privoxy_backend : Config → Instance → Backend
privoxy_backend cfg inst =
    backend cfg (text_append "privoxy_" (decimal inst.id))
      (add64 cfg.privoxy.start_port (pos inst.id))

-- The loop over the instances: the HTTP backends, in their order.
unfoldable pub http_list : Config → List Instance → List Backend
http_list cfg [] = []
http_list cfg (inst ∷ rest) =
    let later = http_list cfg rest in
    if str_eq cfg.proxy_mode "native"
    then (if ltb_ℤ (pos 0) inst.http_port then tunnel_backend cfg inst ∷ later else later)
    else privoxy_backend cfg inst ∷ later

unfoldable pub socks_list : Config → List Instance → List Backend
socks_list cfg [] = []
socks_list cfg (inst ∷ rest) = socks_backend cfg inst ∷ socks_list cfg rest

abbrev pub config_data : Config → String → List Backend → List Backend → ConfigData
config_data cfg password http socks = record {
  listen = cfg.proxy.master.listen;
  socks_port = cfg.proxy.master.socks_port;
  http_port = cfg.proxy.master.http_port;
  stats_listen = cfg.proxy.stats.listen;
  stats_port = cfg.proxy.stats.port;
  stats_uri = cfg.proxy.stats.uri;
  stats_password = password;
  client_timeout = cfg.proxy.master.client_timeout;
  server_timeout = cfg.proxy.master.server_timeout;
  retries = cfg.instances.retries;
  balance_algorithm = cfg.proxy.load_balance_algorithm;
  check_interval = cfg.health_check.interval;
  max_fail = cfg.health_check.max_fail;
  min_success = cfg.health_check.minimum_success;
  http_backends = http;
  socks_backends = socks;
}

abbrev pub data_of :
    Config → String → Option (List Backend) → Option (List Backend) → Option ConfigData
data_of cfg password (some http) (some socks) = some (config_data cfg password http socks)
data_of cfg password _ _ = none

-- The two calls of `rand.Shuffle` may ask for different exchanges; `none` is a panic.
unfoldable pub build_config_data :
    (ℕ → List (ℕ × ℕ)) → (ℕ → List (ℕ × ℕ)) → Config → List Instance → String → Option ConfigData
build_config_data shuffle_http shuffle_socks cfg instances password =
    data_of cfg password (shuffled shuffle_http (http_list cfg instances))
      (shuffled shuffle_socks (socks_list cfg instances))

-- The manager: the process's id, and the data in its configuration file, if they are whole.
pub record HaproxyManager : Type 0 where
  pub stats_password : String
  pub proc : Option ℕ
  pub file : Option ConfigData

unfoldable pub new_haproxy : String → HaproxyManager
new_haproxy password = record { stats_password = password; proc = none; file = none }

-- Where `GenerateConfig` stops: before the file is created, in the middle of it, or at its end.
pub data Generated : Type 0 where
  not_created interrupted complete : Generated

-- The manager after `GenerateConfig` with this data, and whether it returned an error.
unfoldable pub generate_config : Generated → ConfigData → HaproxyManager → HaproxyManager × Bool
generate_config not_created data_ m = (m, true)
generate_config interrupted data_ m = (record m { file = none }, true)
generate_config complete data_ m = (record m { file = some data_ }, false)

abbrev pub take_proc : Option ℕ → HaproxyManager → HaproxyManager × Bool
take_proc none m = (m, true)
take_proc (some pid) m = (record m { proc = some pid }, false)

-- `spawned` is the id of the process that `Spawn` starts, or its error.
unfoldable pub start_haproxy : Option ℕ → HaproxyManager → HaproxyManager × Bool
start_haproxy spawned m = take_proc spawned m

unfoldable pub stop_haproxy : HaproxyManager → HaproxyManager
stop_haproxy m = record m { proc = none }

unfoldable pub reload_haproxy : Option ℕ → HaproxyManager → HaproxyManager × Bool
reload_haproxy spawned m = elim m.proc [
  | none ↦ (m, true)
  | some pid ↦ if pid == 0 then (m, true) else take_proc spawned m
]
