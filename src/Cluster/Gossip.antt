-- ===== src/Cluster/Gossip.antt =====
-- crates/ironfish-cluster/src/gossip.rs: a map of the newest message for each key. The network
-- tasks of this file only log; what reaches a node is in Cluster/Service.antt.
pub mod Convergence
pub mod Peers
use ironfish.Base.{
  ℕ, ◌/◌, ◌%◌, Bool, true, false, not, ◌&&◌, ◌||◌, Option, none, some, List, [], ◌∷◌, ◌++◌, Text,
  text, text_eq, text_ltb, Map, get, insert, ltb, nat_eq, ◌==◌, if◌then◌else◌, any, filterb,
}
use ironfish.Core.Cluster.{NodeId, DateTime, NodeInfo}
use ironfish.Core.Token.{Uuid, ApiToken}
use ironfish.Core.Gossip.{
  GossipMessage, token_created, token_revoked, token_updated, node_joined, node_left, node_metrics,
}
use ironfish.Cluster.Node.{u64_mod}

pub record GossipEntry : Type 0 where
  pub message : GossipMessage
  pub timestamp : DateTime
  pub origin : NodeId
  pub version : ℕ

-- `broadcast_tx` is the list of what was sent to the subscribers, the newest last.
pub record GossipService : Type 0 where
  pub node_id : NodeId
  pub entries : Map Text GossipEntry
  pub peers : List NodeInfo
  pub broadcast_tx : List GossipMessage
  pub sync_interval : ℕ

unfoldable pub new : NodeId → GossipService
new n = record { node_id = n; entries = []; peers = []; broadcast_tx = []; sync_interval = 5000 }

unfoldable pub add_peer : NodeInfo → GossipService → GossipService
add_peer peer g =
    if any (λ p. p.id == peer.id) g.peers then g else record g { peers = g.peers ++ peer ∷ [] }

unfoldable pub remove_peer : NodeId → GossipService → GossipService
remove_peer peer_id g = record g { peers = filterb (λ p. not (p.id == peer_id)) g.peers }

-- `existing` keeps its place: a later version, or the same one from a node not below.
unfoldable pub keeps_place : GossipEntry → GossipEntry → Bool
keeps_place existing entry =
    ltb entry.version existing.version
    || (existing.version == entry.version && not (text_ltb existing.origin entry.origin))

-- `Utc::now().timestamp_millis() as u64`.
abbrev pub millis : DateTime → ℕ
millis now = now / 1000000 % u64_mod

-- The text of a UUID is the `uuid` crate's, an argument here.
module _ (show_uuid : Uuid → Text) where
  unfoldable pub entry_key : GossipMessage → Text
  entry_key (token_created t) = text "token:" ++ show_uuid t.id
  entry_key (token_revoked id) = text "token:" ++ show_uuid id
  entry_key (token_updated t) = text "token:" ++ show_uuid t.id
  entry_key (node_joined n) = text "node:" ++ n.id
  entry_key (node_left id) = text "node:" ++ id
  entry_key (node_metrics id _) = text "metrics:" ++ id

  is_stale : Option GossipEntry → GossipEntry → Bool
  is_stale none entry = false
  is_stale (some existing) entry = keeps_place existing entry

  unfoldable pub apply_message : GossipEntry → GossipService → GossipService
  unfolding is_stale
  apply_message entry g =
      let key = entry_key entry.message in
      if is_stale (get key g.entries) entry then g else record g {
        entries = insert key entry g.entries;
        broadcast_tx = g.broadcast_tx ++ entry.message ∷ [];
      }

  unfoldable pub broadcast : DateTime → GossipMessage → GossipService → GossipService
  unfolding apply_message
  broadcast now message g =
      apply_message
        (record { message = message; timestamp = now; origin = g.node_id; version = millis now }) g

  unfoldable pub apply_all : List GossipEntry → GossipService → GossipService
  apply_all [] g = g
  apply_all (e ∷ es) g = apply_all es (apply_message e g)
