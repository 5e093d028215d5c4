-- ===== src/Server/Config/Sections.antt =====
-- crates/ironfish-server/src/config.rs: what is in a file, by the attributes of the structs.
use ironfish.Base.{ℕ, Bool, Option, List, Text}
use ironfish.Core.Cluster.{Float32, SocketAddr}
use ironfish.Api.State.{WebSocketConfig}

-- The sections of a file, by what is there.
pub record NodeSection : Type 0 where
  pub id : Option Text
  pub bind_address : Option SocketAddr
  pub data_dir : Option Text
  pub priority : Option ℕ

pub record StockfishSection : Type 0 where
  pub binary_path : Option Text
  pub pool_size : Option ℕ
  pub default_depth : Option ℕ
  pub default_multipv : Option ℕ

pub record ClusterSection : Type 0 where
  pub enabled : Option Bool
  pub heartbeat_interval_ms : Option ℕ
  pub election_timeout_ms : Option ℕ
  pub gossip_interval_ms : Option ℕ

pub record DiscoverySection : Type 0 where
  pub static_peers : Option (List Text)
  pub seed_nodes : Option (List Text)
  pub multicast_enabled : Option Bool
  pub multicast_group : Option Text
  pub multicast_port : Option ℕ

pub record AuthSection : Type 0 where
  pub enabled : Option Bool
  pub token_ttl_days : Option ℕ
  pub rate_limit_per_minute : Option ℕ
  pub token_secret : Option Text

pub record LoadBalancerSection : Type 0 where
  pub strategy : Option Text
  pub cpu_weight : Option Float32
  pub queue_weight : Option Float32
  pub latency_weight : Option Float32

pub record File : Type 0 where
  pub node : Option NodeSection
  pub stockfish : Option StockfishSection
  pub cluster : Option ClusterSection
  pub discovery : Option DiscoverySection
  pub auth : Option AuthSection
  pub load_balancer : Option LoadBalancerSection
  pub websocket : Option WebSocketConfig

-- What reading the file and decoding it come to.
pub data Source : Type 0 where
  missing : Source
  unreadable : Text → Source
  decoded : File → Source
