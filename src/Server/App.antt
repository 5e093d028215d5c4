-- ===== src/Server/App.antt =====
-- crates/ironfish-server/src/app.rs: making the parts of the process from its configuration, and
-- the task that hands the tokens' messages to the network. Errors are texts. Opening a store,
-- starting engines and making a key are given.
pub mod Gossip
pub mod Issue
pub mod Revocation
use ironfish.Base.{
  ℕ, Bool, true, false, Option, none, some, List, [], ◌∷◌, Text, text, text_eq, ◌==◌, if◌then◌else◌,
}
use ironfish.Core.Error.{Result, ok, err, display}
use ironfish.Core.Cluster.{DateTime}
use ironfish.Cluster.Node
use ironfish.Cluster.Node.{Node, id}
use ironfish.Cluster.Membership
use ironfish.Cluster.Service.Lifecycle
use ironfish.Cluster.Service.Lifecycle.{ClusterConfig, ClusterService}
use ironfish.Stockfish.Pool
use ironfish.Stockfish.Pool.{EnginePool}
use ironfish.Stockfish.Service
use ironfish.Auth.Token
use ironfish.Auth.Token.{Crypto, with_default_ttl}
use ironfish.Auth.Store.{Codec, Store}
use ironfish.Api.Manager
use ironfish.Api.State
use ironfish.Api.State.{ApiState, with_gossip}
use ironfish.Server.Config.{Config}

unfoldable pub node_config : Text → Config → Node.NodeConfig
node_config version config = record {
  id = if config.node.id == text "auto" then none else some config.node.id;
  bind_address = config.node.bind_address;
  priority = config.node.priority;
  version = version;
}

unfoldable pub cluster_config : Config → ClusterConfig
cluster_config config = record {
  discovery_interval = config.cluster.gossip_interval_ms;
  gossip_interval = config.cluster.gossip_interval_ms;
  health_check_interval = config.cluster.heartbeat_interval_ms;
  multicast_group = config.discovery.multicast_group;
  multicast_port = config.discovery.multicast_port;
  static_peers = config.discovery.static_peers;
  auto_join = true;
}

abbrev service_or_none : Result ClusterService → Option ClusterService
service_or_none (ok s) = some s
service_or_none (err e) = none

-- A service that cannot be made is left out.
unfoldable pub cluster_of : (Text → Bool) → Config → Node → Option ClusterService
unfolding cluster_config
cluster_of parses config node =
    if config.cluster.enabled
    then service_or_none (Lifecycle.new parses (cluster_config config) node)
    else none

module _ (codec : Codec) (c : Crypto) where
  open c use {Key}

  pub record Application : Type 0 where
    pub config : Config
    pub state : ApiState codec c
    pub cluster : Option ClusterService

  -- The parts, once the engines and the store are there.
  unfoldable pub assembled :
      (Text → Bool) → (Text → Key) → Config → Node → Store codec → Application
  unfolding cluster_of
  assembled parses key_of config node store =
      let manager =
        with_default_ttl c config.auth.token_ttl_days
          (Token.new c (key_of config.auth.token_secret) (id node)) in
      record {
        config = config;
        state = with_gossip codec c [] (
            State.new codec c Service.new store manager (Membership.new node)
              (Manager.new config.websocket.max_connections) config.websocket);
        cluster = cluster_of parses config node;
      }

  stored :
      (Text → Bool)
      → (Text → Key)
      → Config
      → Node
      → Result EnginePool
      → Result (Store codec)
      → Result Application
  unfolding assembled
  stored parses key_of config node (err e) opened = err e
  stored parses key_of config node (ok pool) (err e) = err e
  stored parses key_of config node (ok pool) (ok store) =
      ok (assembled parses key_of config node store)

  -- `outcomes` are the starts of the engines, `opened` the directory and store of the tokens.
  unfoldable pub new :
      (Text → Bool)
      → (Text → Key)
      → Text
      → Text
      → DateTime
      → List (Result (Unit {0}))
      → Result (Store codec)
      → Config
      → Result Application
  unfolding stored node_config
  new parses key_of version generated now outcomes opened config =
      stored parses key_of config (Node.new generated now (node_config version config))
        (Pool.new outcomes) opened
