-- ===== src/Cluster/Network.antt =====
-- crates/ironfish-cluster/src/network.rs: the peers of the gossip network and its connections.
-- TCP and JSON are not of this repository: what a read or a peer's answer comes to is an argument.
pub mod Peers
use ironfish.Base.{
  ℕ, suc, ◌+◌, ◌%◌, Bool, true, false, Option, none, some, List, [], ◌∷◌, ◌++◌, Text, text, text_eq,
  Map, get, insert, remove, contains_key, length, ltb, ◌==◌, if◌then◌else◌,
}
use ironfish.Core.Error.{Error, network, Result, ok, err}
use ironfish.Core.Cluster.{NodeId, SocketAddr, NodeInfo}
use ironfish.Core.Gossip.{GossipMessage}

abbrev pub gossip_port_offset : ℕ
gossip_port_offset = 100

abbrev pub max_message_size : ℕ
max_message_size = 1048576

pub record GossipEnvelope : Type 0 where
  pub message : GossipMessage
  pub origin : NodeId
  pub version : ℕ
  pub hops : ℕ

pub data NetworkMessage : Type 0 where
  gossip : GossipEnvelope → NetworkMessage
  sync_request : ℕ → NetworkMessage
  sync_response : List GossipEnvelope → NetworkMessage
  ping pong discovery_request : NetworkMessage
  discovery_response : List NodeInfo → NetworkMessage

pub record PeerConnection : Type 0 where
  pub info : NodeInfo
  pub gossip_addr : SocketAddr
  pub healthy : Bool
  pub last_seen : ℕ

-- `incoming` is the queue between the connections and the receiver, the oldest first.
pub record NetworkService : Type 0 where
  pub local_node : NodeInfo
  pub peers : Map NodeId PeerConnection
  pub incoming : List GossipEnvelope
  pub gossip_port : ℕ

-- `port + GOSSIP_PORT_OFFSET` on a `u16`, as a release build wraps it.
abbrev pub gossip_port_of : ℕ → ℕ
gossip_port_of port = (port + gossip_port_offset) % 65536

unfoldable pub new : NodeInfo → NetworkService
new node = record {
  local_node = node;
  peers = [];
  incoming = [];
  gossip_port = gossip_port_of node.address.port;
}

abbrev connection : ℕ → NodeInfo → PeerConnection
connection now peer = record {
  info = peer;
  gossip_addr = record { ip = peer.address.ip; port = gossip_port_of peer.address.port };
  healthy = true;
  last_seen = now;
}

unfoldable pub add_peer : ℕ → NodeInfo → NetworkService → NetworkService
add_peer now peer n =
    if peer.id == n.local_node.id
    then n
    else if contains_key peer.id n.peers
    then n
    else record n { peers = insert peer.id (connection now peer) n.peers }

unfoldable pub remove_peer : NodeId → NetworkService → NetworkService
remove_peer peer_id n = record n { peers = remove peer_id n.peers }

-- What `broadcast` hands to its tasks: the peer, its address and the message.
abbrev pub Sending : Type 0
Sending = NodeId × SocketAddr × NetworkMessage

sendings : GossipEnvelope → Map NodeId PeerConnection → List Sending
sendings envelope [] = []
sendings envelope ((peer_id, conn) ∷ rest) =
    let more = sendings envelope rest in
    if conn.healthy then (peer_id, conn.gossip_addr, gossip envelope) ∷ more else more

unfoldable pub broadcast : GossipEnvelope → NetworkService → List Sending
unfolding sendings
broadcast envelope n = sendings envelope n.peers

abbrev set_health :
    Bool → Option PeerConnection → NodeId → Map NodeId PeerConnection → Map NodeId PeerConnection
set_health h none peer_id peers = peers
set_health h (some conn) peer_id peers = insert peer_id (record conn { healthy = h }) peers

-- What a task does when its send fails.
unfoldable pub send_failed : NodeId → NetworkService → NetworkService
send_failed peer_id n = record n { peers = set_health false (get peer_id n.peers) peer_id n.peers }

touched : ℕ → Option PeerConnection → NodeId → Map NodeId PeerConnection → Map NodeId PeerConnection
touched now none peer_id peers = peers
touched now (some conn) peer_id peers =
    insert peer_id (record conn { healthy = true; last_seen = now }) peers

unfoldable pub mark_healthy : ℕ → NodeId → NetworkService → NetworkService
unfolding touched
mark_healthy now peer_id n = record n { peers = touched now (get peer_id n.peers) peer_id n.peers }

-- The infos of the healthy connections.
healthy_infos : Map NodeId PeerConnection → List NodeInfo
healthy_infos [] = []
healthy_infos ((_, conn) ∷ rest) =
    let more = healthy_infos rest in if conn.healthy then conn.info ∷ more else more

unfoldable pub healthy_peers : NetworkService → List NodeInfo
unfolding healthy_infos
healthy_peers n = healthy_infos n.peers

unfoldable pub peer_count : NetworkService → ℕ
peer_count n = length n.peers

all_infos : Map NodeId PeerConnection → List NodeInfo
all_infos [] = []
all_infos ((_, conn) ∷ rest) = conn.info ∷ all_infos rest

not_found : NodeId → Error
not_found peer_id = network (text "peer " ++ (peer_id ++ text " not found"))

-- A request to a peer, `answer` being what `send_and_receive` brings back.
sync_answer : Result NetworkMessage → Result (List GossipEnvelope)
sync_answer (err e) = err e
sync_answer (ok (sync_response entries)) = ok entries
sync_answer (ok _) = err (network (text "unexpected response"))

sync_over : NodeId → Option PeerConnection → Result NetworkMessage → Result (List GossipEnvelope)
unfolding not_found sync_answer
sync_over peer_id none answer = err (not_found peer_id)
sync_over peer_id (some conn) answer = sync_answer answer

unfoldable pub sync_with_peer :
    NodeId → Result NetworkMessage → NetworkService → Result (List GossipEnvelope)
unfolding sync_over
sync_with_peer peer_id answer n = sync_over peer_id (get peer_id n.peers) answer

discovery_answer : Result NetworkMessage → Result (List NodeInfo)
discovery_answer (err e) = err e
discovery_answer (ok (discovery_response nodes)) = ok nodes
discovery_answer (ok _) = err (network (text "unexpected response"))

discover_over : NodeId → Option PeerConnection → Result NetworkMessage → Result (List NodeInfo)
unfolding not_found discovery_answer
discover_over peer_id none answer = err (not_found peer_id)
discover_over peer_id (some conn) answer = discovery_answer answer

unfoldable pub discover_from_peer :
    NodeId → Result NetworkMessage → NetworkService → Result (List NodeInfo)
unfolding discover_over
discover_from_peer peer_id answer n = discover_over peer_id (get peer_id n.peers) answer

-- What the next read of a connection's length brings: the end, an error, or a length with what
-- reading and decoding that many bytes comes to.
pub data Read : Type 0 where
  end_of_file : Read
  failed : Text → Read
  frame : ℕ → Result NetworkMessage → Read

-- What a connection did: how it ended, the responses sent, and what it put on the queue.
pub record Served : Type 0 where
  pub outcome : Result (Unit {0})
  pub responses : List NetworkMessage
  pub queued : List GossipEnvelope

abbrev respond : NetworkMessage → Served → Served
respond message later = record later { responses = message ∷ later.responses }

serve : Map NodeId PeerConnection → NetworkMessage → Served → Served
unfolding all_infos
serve peers (gossip envelope) later = record later { queued = envelope ∷ later.queued }
serve peers ping later = respond pong later
serve peers (sync_request _) later = respond (sync_response []) later
serve peers discovery_request later = respond (discovery_response (all_infos peers)) later
serve peers _ later = later

abbrev ended : Result (Unit {0}) → Served
ended r = record { outcome = r; responses = []; queued = [] }

-- A frame of allowed length: an error ends the connection, a message is served.
served_by : Map NodeId PeerConnection → Result NetworkMessage → Served → Served
unfolding serve
served_by peers (err e) later = ended (err e)
served_by peers (ok message) later = serve peers message later

-- `handle_connection` over the reads to come; a peer that sends no more ends it like an end.
unfoldable pub handle_connection : Map NodeId PeerConnection → List Read → Served
unfolding served_by
handle_connection peers [] = ended (ok tt)
handle_connection peers (end_of_file ∷ _) = ended (ok tt)
handle_connection peers (failed e ∷ _) = ended (err (network (text "read error: " ++ e)))
handle_connection peers (frame len body ∷ reads) =
    let later = handle_connection peers reads in
    if ltb max_message_size len
    then ended (err (network (text "message too large")))
    else served_by peers body later
