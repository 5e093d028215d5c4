-- ===== src/Cluster/Service/Lifecycle.antt =====
-- crates/ironfish-cluster/src/cluster_service.rs: making, starting and stopping the service. The
-- tasks that it spawns are a list of their names, from which a shutdown takes them.
use ironfish.Base.{
  ℕ, Bool, true, false, Option, none, some, List, [], ◌∷◌, ◌++◌, Text, text, if◌then◌else◌,
}
use ironfish.Core.Error.{Error, Result, ok, err}
use ironfish.Cluster.Node.{Node, id}
use ironfish.Cluster.Gossip
use ironfish.Cluster.Gossip.{GossipService}
use ironfish.Cluster.Network
use ironfish.Cluster.Network.{NetworkService}
use ironfish.Cluster.Consensus.Hybrid
use ironfish.Cluster.Consensus.Hybrid.{HybridConsensus}
use ironfish.Cluster.Discovery
use ironfish.Cluster.Discovery.{
  DiscoveryManager, World, with_static, with_multicast, announce, withdraw,
}

-- The intervals are in milliseconds.
pub record ClusterConfig : Type 0 where
  pub discovery_interval : ℕ
  pub gossip_interval : ℕ
  pub health_check_interval : ℕ
  pub multicast_group : Text
  pub multicast_port : ℕ
  pub static_peers : List Text
  pub auto_join : Bool

-- `ClusterConfig::default()`
abbrev pub default_config : ClusterConfig
default_config = record {
  discovery_interval = 10000;
  gossip_interval = 5000;
  health_check_interval = 30000;
  multicast_group = text "239.255.42.98";
  multicast_port = 7878;
  static_peers = [];
  auto_join = true;
}

pub data Task : Type 0 where
  listener peer_sync monitor : Task
  discovery_loop gossip_receiver gossip_sync_loop announcement_loop : Task

pub record ClusterService : Type 0 where
  pub config : ClusterConfig
  pub network : NetworkService
  pub gossip : GossipService
  pub consensus : HybridConsensus
  pub discovery : DiscoveryManager
  pub running : Bool
  pub tasks : List Task

made : ClusterConfig → Node → Result DiscoveryManager → Result ClusterService
made config node (err e) = err e
made config node (ok d) = ok (record {
  config = config;
  network = Network.new node.info;
  gossip = Gossip.new (id node);
  consensus = Hybrid.new node;
  discovery = d;
  running = false;
  tasks = [];
})

-- `parses` tells whether the multicast group is an address.
unfoldable pub new : (Text → Bool) → ClusterConfig → Node → Result ClusterService
unfolding made
new parses config node = made config node (
    with_multicast parses config.multicast_group config.multicast_port
      (with_static config.static_peers Discovery.new))

abbrev spawn : List Task → ClusterService → ClusterService
spawn ts s = record s { tasks = s.tasks ++ ts }

-- `start` after the announcement: the four loops, or the error.
unfoldable pub announced :
    Result (Unit {0}) × DiscoveryManager → ClusterService → Result (Unit {0}) × ClusterService
announced (err e, d) s = (err e, record s { discovery = d })
announced (ok _, d) s = (
  ok tt,
  spawn (discovery_loop ∷ gossip_receiver ∷ gossip_sync_loop ∷ announcement_loop ∷ [])
      (record s { discovery = d }),
)

-- `start` after the listener is bound.
unfoldable pub bound : World → Option Error → ClusterService → Result (Unit {0}) × ClusterService
unfolding announced
bound w (some e) s = (err e, s)
bound w none s =
    let s' =
      spawn (listener ∷ peer_sync ∷ monitor ∷ [])
        (record s { consensus = Hybrid.start s.consensus }) in
    announced (announce w s'.consensus.node.info s'.discovery) s'

-- `bind` is the error of binding the gossip port.
unfoldable pub start : World → Option Error → ClusterService → Result (Unit {0}) × ClusterService
unfolding bound
start w bind s = if s.running then (ok tt, s) else bound w bind (record s { running = true })

unfoldable pub withdrawn :
    Result (Unit {0}) × DiscoveryManager → ClusterService → Result (Unit {0}) × ClusterService
withdrawn (err e, d) s = (err e, record s { discovery = d })
withdrawn (ok _, d) s = (ok tt, record s { discovery = d; running = false })

-- Every task listens to a shutdown that `stop` sends.
unfoldable pub stop : World → ClusterService → Result (Unit {0}) × ClusterService
unfolding withdrawn
stop w s =
    let s' = record s { consensus = Hybrid.stop s.consensus; tasks = [] } in
    withdrawn (withdraw w (id s'.consensus.node) s'.discovery) s'
