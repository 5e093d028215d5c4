-- ===== src/Cluster/Service/Relay.antt =====
-- How far gossip travels from node to node.
use ironfish.Base.{
  ℕ, suc, ◌+◌, ◌≤◌, ◌<◌, some, text_eq, text_eqb_iff, ◌≡◌, ◌≢◌, refl, ◌↔◌, ◌⊎◌, inl, arith,
}
use ironfish.Core.Cluster.{NodeId}
use ironfish.Cluster.Network.{GossipEnvelope}
use ironfish.Cluster.Service.{forward}

-- A node passes an envelope on exactly when it is not its own and has made fewer than three hops;
-- what it sends is the same message with one hop more.
forward_iff :
    (local_id : NodeId) (e e' : GossipEnvelope)
    → (forward local_id e ≡ some e')
      ↔ ((e.origin ≢ local_id) × (e.hops < 3) × (e' ≡ record e { hops = e.hops + 1 }))
unfolding forward
forward_iff local_id e e' = ground (arith, text_eqb_iff e.origin local_id)

-- An envelope that reached another through a number of nodes, whichever they are.
pub data Relayed (e : GossipEnvelope) : ℕ → GossipEnvelope → Type 0 where
  sent : Relayed e 0 e
  relay :
      {n : ℕ} {e' e'' : GossipEnvelope} (node : NodeId)
      → Relayed e n e'
      → forward node e' ≡ some e''
      → Relayed e (suc n) e''

Relayed-hops :
    (e : GossipEnvelope) {n : ℕ} {e' : GossipEnvelope}
    → Relayed e n e'
    → (e'.hops ≡ e.hops + n)
      × (e'.message ≡ e.message)
      × (e'.origin ≡ e.origin)
      × (e'.version ≡ e.version)
      × ((n ≡ 0) ⊎ (e'.hops ≤ 3))
Relayed-hops e sent = (omega arith, refl, refl, refl, inl refl)
Relayed-hops e (relay {n} {e'} {e''} node r step) =
    ground (arith, Relayed-hops e r, (forward_iff node e' e'').0 step)

-- A flood ends: through any nodes, an envelope as it was broadcast, with no hop made, is passed on
-- at most three times, and every copy has the message, the origin and the version of the first.
pub flood_ends :
    (e : GossipEnvelope) (n : ℕ) (e' : GossipEnvelope)
    → e.hops ≡ 0
    → Relayed e n e'
    → (n ≤ 3) × (e'.message ≡ e.message) × (e'.origin ≡ e.origin) × (e'.version ≡ e.version)
flood_ends e n e' h r = ground (arith, Relayed-hops e r)
