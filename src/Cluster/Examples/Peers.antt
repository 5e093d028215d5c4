-- ===== src/Cluster/Examples/Peers.antt =====
-- Discovery, and the cluster service as it starts.
use ironfish.Base.{false, none, some, [], ◌∷◌, text, text_eq, ◌≡◌, refl, arith}
use ironfish.Core.Error.{Error, ok, network}
use ironfish.Cluster.Network
use ironfish.Cluster.Gossip
use ironfish.Cluster.Consensus.Hybrid
use ironfish.Cluster.Discovery.Sources.{Resolver, timed_out}
use ironfish.Cluster.Discovery.Multicast.{
  Bytes, Json, MulticastDiscovery, announce, withdraw, datagram, receive_loop,
}
use ironfish.Cluster.Discovery.{DiscoveryManager, World, found, discover}
use ironfish.Cluster.Discovery.Known.{first_known, or_else, discover_lem}
use ironfish.Cluster.Discovery.Announcements.{announce-receive_loop, withdraw-receive_loop}
use ironfish.Cluster.Service.Lifecycle.{ClusterService, default_config, start}
use ironfish.Cluster.Service.Restarts.{start_after_failure}
use ironfish.Cluster.Examples.{info, node}

-- Only one node has an encoding that can be read.
abbrev json : Json
json = record {
  node_to_vec = λ n. ok (5 ∷ []);
  id_to_vec = λ i. ok (6 ∷ []);
  node_from_slice = λ b. some (info (text "c") 9);
}

abbrev resolver : Resolver
resolver = record {
  parse = λ s. none;
  lookup = λ s. ok (record { ip = 9; port = 8080 } ∷ []);
  show = λ a. [];
  show_port = λ p. [];
  now = λ s. 0;
}

abbrev world : World
world = record {
  resolver = resolver;
  connect = λ s. timed_out;
  json = json;
  socket = λ s. none;
  send_failure = none;
  received = datagram (1 ∷ 5 ∷ []) ∷ [];
}

abbrev group : MulticastDiscovery
group = record { group = text "239.255.42.98"; port = 7878; has_socket = false; sent = [] }

-- It knows `c`, and has `h:1` in its configuration.
abbrev manager : DiscoveryManager
manager = record {
  static_discovery = some (text "h:1" ∷ []);
  seed_discovery = none;
  multicast_discovery = some group;
  dns_discovery = none;
  known_peers = info (text "c") 1 ∷ [];
}

discover_lem_example :
    first_known (text "c") (discover world manager).0
    ≡ or_else (some (info (text "c") 1)) (first_known (text "c") (found world manager))
discover_lem_example = (discover_lem world manager (refl, tt)).2 (text "c")

announce-receive_loop_example :
    (packet : Bytes) × ((announce json (λ s. none) none (info (text "c") 9) group).1.sent
      ≡ packet ∷ [])
    × (receive_loop json (datagram packet ∷ []) ≡ info (text "c") 9 ∷ [])
unfolding announce receive_loop
announce-receive_loop_example =
    announce-receive_loop json (λ s. none) none (info (text "c") 9) (5 ∷ []) [] group refl refl
      (ground arith) (ground arith) refl

withdraw-receive_loop_example :
    (packet : Bytes) × ((withdraw json (λ s. none) none (text "c") group).1.sent ≡ packet ∷ [])
    × (receive_loop json (datagram packet ∷ []) ≡ [])
unfolding withdraw receive_loop
withdraw-receive_loop_example =
    withdraw-receive_loop json (λ s. none) none (text "c") (6 ∷ []) [] group refl refl

abbrev service : ClusterService
service = record {
  config = default_config;
  network = Network.new node.info;
  gossip = Gossip.new node.info.id;
  consensus = Hybrid.new node;
  discovery = manager;
  running = false;
  tasks = [];
}

abbrev in_use : Error
in_use = network (text "failed to bind gossip port 7100: address in use")

start_after_failure_example :
    start world none (start world (some in_use) service).1
    ≡ (ok tt, (start world (some in_use) service).1)
start_after_failure_example = ((start_after_failure world world none service in_use).0 refl).2
