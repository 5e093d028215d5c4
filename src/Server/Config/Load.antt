-- ===== src/Server/Config/Load.antt =====
-- crates/ironfish-server/src/config.rs: the defaults of the sections, and `load`.
use ironfish.Base.{Bool, true, Option, none, some, List, [], Text, text, nat_eqb, split}
use ironfish.Core.Cluster.{SocketAddr}
use ironfish.Api.State.{default_ws_config}
use ironfish.Server.Config.{
  NodeConfig, StockfishConfig, ClusterConfig, DiscoveryConfig, AuthConfig, LoadBalancerConfig,
  Config, or_else, Env, default_token_secret, default_node_id, default_bind_address,
  default_data_dir, default_priority, default_stockfish_path, default_pool_size, default_depth,
  default_multipv, default_heartbeat_interval, default_election_timeout, default_gossip_interval,
  default_multicast_group, default_multicast_port, default_token_ttl, default_rate_limit,
  default_strategy, default_cpu_weight, default_queue_weight, default_latency_weight,
}
use ironfish.Server.Config.Sections.{
  NodeSection, StockfishSection, ClusterSection, DiscoverySection, AuthSection, LoadBalancerSection,
  File, Source, missing, unreadable, decoded,
}

-- A default that may panic is taken only where the field is missing.
abbrev given_or : {A : Type 0} → Option A → Option A → Option A
given_or default none = default
given_or default (some a) = some a

-- A section that is missing is its `Default`, one that is there is read field by field.
abbrev pub section : {A B : Type 0} → B → (A → B) → Option A → B
section default read none = default
section default read (some a) = read a

abbrev pub no_auth : AuthSection
no_auth = record {
  enabled = none;
  token_ttl_days = none;
  rate_limit_per_minute = none;
  token_secret = none;
}

abbrev pub no_sections : File
no_sections = record {
  node = none;
  stockfish = none;
  cluster = none;
  discovery = none;
  auth = none;
  load_balancer = none;
  websocket = none;
}

module _ (debug : Bool) (env : Env) (parse : Text → Option SocketAddr) where
  unfoldable pub node_with : NodeSection → Option SocketAddr → Option NodeConfig
  node_with s none = none
  node_with s (some address) = some (record {
    id = or_else (default_node_id env) s.id;
    bind_address = address;
    data_dir = or_else default_data_dir s.data_dir;
    priority = or_else default_priority s.priority;
  })

  unfoldable pub read_node : NodeSection → Option NodeConfig
  unfolding node_with
  read_node s = node_with s (given_or (default_bind_address parse env) s.bind_address)

  unfoldable pub default_node : Option NodeConfig
  unfolding read_node
  default_node =
      read_node (record { id = none; bind_address = none; data_dir = none; priority = none })

  unfoldable pub read_stockfish : StockfishSection → StockfishConfig
  read_stockfish s = record {
    binary_path = or_else (default_stockfish_path env) s.binary_path;
    pool_size = or_else default_pool_size s.pool_size;
    default_depth = or_else default_depth s.default_depth;
    default_multipv = or_else default_multipv s.default_multipv;
  }

  unfoldable pub default_stockfish : StockfishConfig
  unfolding read_stockfish
  default_stockfish = read_stockfish (record {
    binary_path = none;
    pool_size = none;
    default_depth = none;
    default_multipv = none;
  })

  unfoldable pub read_cluster : ClusterSection → ClusterConfig
  read_cluster s = record {
    enabled = or_else true s.enabled;
    heartbeat_interval_ms = or_else default_heartbeat_interval s.heartbeat_interval_ms;
    election_timeout_ms = or_else default_election_timeout s.election_timeout_ms;
    gossip_interval_ms = or_else default_gossip_interval s.gossip_interval_ms;
  }

  unfoldable pub default_cluster : ClusterConfig
  default_cluster = record {
    enabled = true;
    heartbeat_interval_ms = default_heartbeat_interval;
    election_timeout_ms = default_election_timeout;
    gossip_interval_ms = default_gossip_interval;
  }

  unfoldable pub read_discovery : DiscoverySection → DiscoveryConfig
  read_discovery s = record {
    static_peers = or_else [] s.static_peers;
    seed_nodes = or_else [] s.seed_nodes;
    multicast_enabled = or_else true s.multicast_enabled;
    multicast_group = or_else default_multicast_group s.multicast_group;
    multicast_port = or_else default_multicast_port s.multicast_port;
  }

  abbrev peers_of : Option Text → List Text
  peers_of none = []
  peers_of (some s) = split (nat_eqb b',') s

  -- The peers of the environment are read here and not by `read_discovery`.
  unfoldable pub default_discovery : DiscoveryConfig
  default_discovery = record {
    static_peers = peers_of (env (text "IRONFISH_CLUSTER_PEERS"));
    seed_nodes = [];
    multicast_enabled = true;
    multicast_group = default_multicast_group;
    multicast_port = default_multicast_port;
  }

  unfoldable pub auth_with : AuthSection → Option Text → Option AuthConfig
  auth_with s none = none
  auth_with s (some secret) = some (record {
    enabled = or_else true s.enabled;
    token_ttl_days = or_else default_token_ttl s.token_ttl_days;
    rate_limit_per_minute = or_else default_rate_limit s.rate_limit_per_minute;
    token_secret = secret;
  })

  unfoldable pub read_auth : AuthSection → Option AuthConfig
  unfolding auth_with
  read_auth s = auth_with s (given_or (default_token_secret debug env) s.token_secret)

  unfoldable pub default_auth : Option AuthConfig
  unfolding auth_with
  default_auth = auth_with no_auth (default_token_secret debug env)

  unfoldable pub read_load_balancer : LoadBalancerSection → LoadBalancerConfig
  read_load_balancer s = record {
    strategy = or_else default_strategy s.strategy;
    cpu_weight = or_else default_cpu_weight s.cpu_weight;
    queue_weight = or_else default_queue_weight s.queue_weight;
    latency_weight = or_else default_latency_weight s.latency_weight;
  }

  unfoldable pub default_load_balancer : LoadBalancerConfig
  default_load_balancer = record {
    strategy = default_strategy;
    cpu_weight = default_cpu_weight;
    queue_weight = default_queue_weight;
    latency_weight = default_latency_weight;
  }

  unfoldable pub assemble : File → Option NodeConfig → Option AuthConfig → Option Config
  unfolding default_stockfish read_stockfish default_cluster read_cluster default_discovery
      read_discovery default_load_balancer read_load_balancer
  assemble f none auth = none
  assemble f (some node) none = none
  assemble f (some node) (some auth) = some (record {
    node = node;
    stockfish = section default_stockfish read_stockfish f.stockfish;
    cluster = section default_cluster read_cluster f.cluster;
    discovery = section default_discovery read_discovery f.discovery;
    auth = auth;
    load_balancer = section default_load_balancer read_load_balancer f.load_balancer;
    websocket = or_else default_ws_config f.websocket;
  })

  unfoldable pub read_file : File → Option Config
  unfolding assemble default_node read_node default_auth read_auth
  read_file f =
      assemble f (section default_node read_node f.node) (section default_auth read_auth f.auth)

  unfoldable pub default_config : Option Config
  unfolding read_file
  default_config = read_file no_sections

  -- `files` is the file system; the outer `none` is a panic, and the inner one an error.
  unfoldable pub load : (Text → Source) → Option (Option Config)
  unfolding read_file default_config
  load files = elim (files (or_else (text "config/default.toml") (env (text "IRONFISH_CONFIG")))) [
    | missing ↦ elim default_config [ none ↦ none | some c ↦ some (some c) ]
    | unreadable e ↦ some none
    | decoded f ↦ elim (read_file f) [ none ↦ none | some c ↦ some (some c) ]
  ]
