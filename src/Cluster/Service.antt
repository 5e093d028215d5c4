-- ===== src/Cluster/Service.antt =====
-- crates/ironfish-cluster/src/cluster_service.rs: gossip applied to the token store and passed on,
-- and discovery. Each task of the source is a function for one round of it.
pub mod Relay
pub mod Tokens
pub mod Discovery
pub mod Lifecycle
pub mod Restarts
use ironfish.Base.{
  ℕ, suc, ◌+◌, ◌%◌, Bool, true, false, not, ◌&&◌, Option, none, some, List, [], ◌∷◌, ◌++◌, Text,
  text, text_eq, Map, ltb, nat_eqb, ◌==◌, if◌then◌else◌,
}
use ironfish.Core.Error.{Error, Result, ok, err}
use ironfish.Core.Cluster.{NodeId, DateTime, NodeInfo}
use ironfish.Core.Token.{Uuid, ApiToken}
use ironfish.Core.Gossip.{
  GossipMessage, token_created, token_revoked, token_updated, node_joined, node_left, node_metrics,
}
use ironfish.Cluster.Node.{Node, id}
use ironfish.Cluster.Gossip.{millis}
use ironfish.Cluster.Membership.{MembershipManager, is_member, add_member}
use ironfish.Cluster.Network.{NetworkService, GossipEnvelope, Sending, add_peer, broadcast}
use ironfish.Auth.Store.{Codec, Store, M, continue, create, get, update, revoke}

module _ (codec : Codec) where
  -- What `TokenCreated` does once the store has been asked for the identifier.
  created : ApiToken → Result (Option ApiToken) → M (Store codec) (Unit {0})
  created t (ok (some existing)) s =
      if ltb existing.created_at t.created_at then update codec t s else (ok tt, s)
  created t (ok none) s = create codec t s
  created t (err e) s = (ok tt, s)

  -- An error that is only logged.
  abbrev logged : Result (Unit {0}) × Store codec → Result (Unit {0}) × Store codec
  logged r = (ok tt, r.1)

  unfoldable pub process_gossip_message : DateTime → GossipMessage → M (Store codec) (Unit {0})
  unfolding created
  process_gossip_message now (token_created t) s = let (r, s') = get codec t.id s in created t r s'
  process_gossip_message now (token_revoked token_id) s = logged (revoke codec now token_id s)
  process_gossip_message now (token_updated t) s = logged (update codec t s)
  process_gossip_message now (node_joined _) s = (ok tt, s)
  process_gossip_message now (node_left _) s = (ok tt, s)
  process_gossip_message now (node_metrics _ _) s = (ok tt, s)

  -- The loop over the entries of a sync, which goes on after an error.
  unfoldable pub apply_sync : DateTime → List GossipEnvelope → Store codec → Store codec
  unfolding process_gossip_message
  apply_sync now [] s = s
  apply_sync now (e ∷ es) s = apply_sync now es (process_gossip_message now e.message s).1

-- What the receiver sends on for an envelope: nothing for its own node's, nor past three hops.
unfoldable pub forward : NodeId → GossipEnvelope → Option GossipEnvelope
forward local_id envelope =
    if envelope.origin == local_id
    then none
    else if ltb envelope.hops 3
    then some (record envelope { hops = envelope.hops + 1 })
    else none

abbrev to_send : NetworkService → Option GossipEnvelope → List Sending
to_send n none = []
to_send n (some envelope) = broadcast envelope n

-- One round of the receiver: the store after the message, and what is sent.
unfoldable pub receive :
    (codec : Codec)
    → DateTime
    → NetworkService
    → NodeId
    → GossipEnvelope
    → Store codec
    → Store codec × List Sending
unfolding process_gossip_message forward
receive codec now n local_id envelope s = if envelope.origin == local_id then (s, []) else (
  (process_gossip_message codec now envelope.message s).1,
  to_send n (forward local_id envelope),
)

-- One round of the discovery loop.
admit_peer :
    Bool
    → DateTime
    → NodeInfo
    → NetworkService × MembershipManager
    → NetworkService × MembershipManager
admit_peer auto_join now peer (n, m) = if peer.id == id m.local_node then (n, m) else (
  add_peer now peer n,
  if auto_join && not (is_member peer.id m) then add_member peer m else m,
)

unfoldable pub discovery_round :
    Bool
    → DateTime
    → List NodeInfo
    → NetworkService × MembershipManager
    → NetworkService × MembershipManager
unfolding admit_peer
discovery_round auto_join now [] st = st
discovery_round auto_join now (p ∷ ps) st =
    discovery_round auto_join now ps (admit_peer auto_join now p st)

-- `broadcast_token_created` and `broadcast_token_revoked`: the envelope that goes to the peers.
unfoldable pub token_envelope : Node → DateTime → GossipMessage → GossipEnvelope
token_envelope node now message = record {
  message = message;
  origin = id node;
  version = millis now;
  hops = 0;
}

-- `rand::random_index` at the nanoseconds of the clock's second.
unfoldable pub random_index : ℕ → ℕ → ℕ
random_index nanos max = if nat_eqb max 0 then 0 else nanos % max
