-- ===== src/Server/Config.antt =====
-- crates/ironfish-server/src/config.rs. The environment is a function from the names of its
-- variables, and a file what `toml` reads of it: every field that has a default may be missing.
-- `none` is a panic.
pub mod Sections
pub mod Load
pub mod Secrets
use ironfish.Base.{
  ℕ, Bool, true, false, not, ◌&&◌, Option, none, some, List, [], ◌∷◌, Text, text, text_eq, nat_eqb,
  split, if◌then◌else◌, ◌==◌,
}
use ironfish.Core.Cluster.{Float32, SocketAddr}
use ironfish.Api.State.{WebSocketConfig, default_ws_config}

pub record NodeConfig : Type 0 where
  pub id : Text
  pub bind_address : SocketAddr
  pub data_dir : Text
  pub priority : ℕ

pub record StockfishConfig : Type 0 where
  pub binary_path : Text
  pub pool_size : ℕ
  pub default_depth : ℕ
  pub default_multipv : ℕ

pub record ClusterConfig : Type 0 where
  pub enabled : Bool
  pub heartbeat_interval_ms : ℕ
  pub election_timeout_ms : ℕ
  pub gossip_interval_ms : ℕ

pub record DiscoveryConfig : Type 0 where
  pub static_peers : List Text
  pub seed_nodes : List Text
  pub multicast_enabled : Bool
  pub multicast_group : Text
  pub multicast_port : ℕ

pub record AuthConfig : Type 0 where
  pub enabled : Bool
  pub token_ttl_days : ℕ
  pub rate_limit_per_minute : ℕ
  pub token_secret : Text

-- The weights are the bits of an `f32`.
pub record LoadBalancerConfig : Type 0 where
  pub strategy : Text
  pub cpu_weight : Float32
  pub queue_weight : Float32
  pub latency_weight : Float32

pub record Config : Type 0 where
  pub node : NodeConfig
  pub stockfish : StockfishConfig
  pub cluster : ClusterConfig
  pub discovery : DiscoveryConfig
  pub auth : AuthConfig
  pub load_balancer : LoadBalancerConfig
  pub websocket : WebSocketConfig

abbrev pub or_else : {A : Type 0} → A → Option A → A
or_else a none = a
or_else a (some b) = b

abbrev pub Env : Type 0
Env = Text → Option Text

abbrev pub insecure_secret : Text
insecure_secret = text "default-dev-secret-change-in-production"

-- `debug` is `cfg!(debug_assertions)`.
unfoldable pub default_token_secret : Bool → Env → Option Text
default_token_secret debug env =
    let secret = or_else insecure_secret (env (text "IRONFISH_TOKEN_SECRET")) in
    if not debug && secret == insecure_secret then none else some secret

abbrev pub default_node_id : Env → Text
default_node_id env = or_else (text "auto") (env (text "IRONFISH_NODE_ID"))

abbrev parsed : (Text → Option SocketAddr) → Option Text → Option SocketAddr
parsed parse none = none
parsed parse (some s) = parse s

abbrev first_of : {A : Type 0} → Option A → Option A → Option A
first_of none b = b
first_of (some a) b = some a

unfoldable pub default_bind_address : (Text → Option SocketAddr) → Env → Option SocketAddr
default_bind_address parse env =
    first_of (parsed parse (env (text "IRONFISH_BIND_ADDRESS"))) (parse (text "0.0.0.0:8080"))

abbrev pub default_data_dir : Text
default_data_dir = text "/var/lib/ironfish"

abbrev pub default_priority : ℕ
default_priority = 100

abbrev pub default_stockfish_path : Env → Text
default_stockfish_path env = or_else (text "/usr/local/bin/stockfish") (env (text "STOCKFISH_PATH"))

abbrev pub default_pool_size : ℕ
default_pool_size = 4

abbrev pub default_depth : ℕ
default_depth = 20

abbrev pub default_multipv : ℕ
default_multipv = 3

abbrev pub default_heartbeat_interval : ℕ
default_heartbeat_interval = 1000

abbrev pub default_election_timeout : ℕ
default_election_timeout = 5000

abbrev pub default_gossip_interval : ℕ
default_gossip_interval = 5000

abbrev pub default_multicast_group : Text
default_multicast_group = text "239.255.42.98"

abbrev pub default_multicast_port : ℕ
default_multicast_port = 7878

abbrev pub default_token_ttl : ℕ
default_token_ttl = 365

abbrev pub default_rate_limit : ℕ
default_rate_limit = 100

abbrev pub default_strategy : Text
default_strategy = text "cpu_aware"

-- The bits of 0.4 and of 0.3.
abbrev pub default_cpu_weight : Float32
default_cpu_weight = 0x3ECCCCCD

abbrev pub default_queue_weight : Float32
default_queue_weight = 0x3E99999A

abbrev pub default_latency_weight : Float32
default_latency_weight = 0x3E99999A
