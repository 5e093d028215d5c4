-- ===== src/Core/Gossip.antt =====
-- crates/ironfish-core/src/traits.rs: the messages that nodes gossip.
use ironfish.Core.Cluster.{NodeId, NodeInfo, NodeMetrics}
use ironfish.Core.Token.{Uuid, ApiToken}

pub data GossipMessage : Type 0 where
  token_created : ApiToken → GossipMessage
  token_revoked : Uuid → GossipMessage
  token_updated : ApiToken → GossipMessage
  node_joined : NodeInfo → GossipMessage
  node_left : NodeId → GossipMessage
  node_metrics : NodeId → NodeMetrics → GossipMessage
