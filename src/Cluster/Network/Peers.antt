-- ===== src/Cluster/Network/Peers.antt =====
-- The table of peers: who is in it, who is sent to, and who comes back after a failure.
use ironfish.Base.{
  ℕ, ◌<◌, true, false, not, ◌&&◌, some, List, [], ◌∷◌, ◌++◌, text, text_eq, text_eqb_iff, Map, get,
  get-insert, contains_key, ◌==◌, if◌then◌else◌, In, ◌≡◌, refl, ◌⊎◌, inl, inr, ◌↔◌, arith,
  Bool-cases,
}
use ironfish.Core.Error.{network, Result, ok, err}
use ironfish.Core.Cluster.{NodeId, SocketAddr, NodeInfo}
use ironfish.Cluster.Network.{
  NetworkService, PeerConnection, GossipEnvelope, NetworkMessage, gossip, add_peer, broadcast,
  sendings, send_failed, connection, Read, frame, failed, end_of_file, handle_connection,
  max_message_size,
}

-- Adding a peer enters it, healthy, unless it is the local node or is in the table already; every
-- other entry is as before.
get-add_peer :
    (now : ℕ) (peer : NodeInfo) (n : NetworkService) (k : NodeId)
    → get k (add_peer now peer n).peers ≡ (
        if peer.id == k && not (peer.id == n.local_node.id) && not (contains_key k n.peers)
        then some (connection now peer)
        else get k n.peers)
unfolding add_peer
get-add_peer now peer n k =
    ground (arith, get-insert peer.id k (connection now peer) n.peers, text_eqb_iff peer.id k)

Target : GossipEnvelope → Map NodeId PeerConnection → NodeId → SocketAddr → NetworkMessage → Type 0
Target e m k a g =
    (c : PeerConnection) × In (k, c) m × (c.healthy ≡ true) × (a ≡ c.gossip_addr) × (g ≡ gossip e)

Target-skip :
    (e : GossipEnvelope) (m : Map NodeId PeerConnection) (x : NodeId × PeerConnection) (k : NodeId)
    (a : SocketAddr) (g : NetworkMessage)
    → Target e m k a g
    → Target e (x ∷ m) k a g
unfolding Target
Target-skip e m x k a g (c, i, h, p, q) = (c, inr i, h, p, q)

sendings-Target :
    (e : GossipEnvelope) (m : Map NodeId PeerConnection) (k : NodeId) (a : SocketAddr)
    (g : NetworkMessage)
    → In (k, a, g) (sendings e m)
    → Target e m k a g
unfolding sendings Target
sendings-Target e [] k a g h = elim h [ ]
sendings-Target e ((j, d) ∷ m) k a g h = elim (Bool-cases d.healthy) [
  | inl up ↦ elim (rw up at h) [
    | inl p ↦ (d, ground arith, up, ground arith, ground arith)
    | inr q ↦ Target-skip e m (j, d) k a g (sendings-Target e m k a g q)
  ]
  | inr down ↦ Target-skip e m (j, d) k a g (sendings-Target e m k a g (rw down at h))
]

Target-sendings :
    (e : GossipEnvelope) (m : Map NodeId PeerConnection) (k : NodeId) (c : PeerConnection)
    → In (k, c) m
    → c.healthy ≡ true
    → In (k, c.gossip_addr, gossip e) (sendings e m)
unfolding sendings
Target-sendings e [] k c i up = elim i [ ]
Target-sendings e ((j, d) ∷ m) k c (inl p) up = ground arith
Target-sendings e ((j, d) ∷ m) k c (inr i) up = elim (Bool-cases d.healthy) [
  | inl h ↦ rw h (inr (Target-sendings e m k c i up))
  | inr h ↦ rw h (Target-sendings e m k c i up)
]

-- `broadcast` sends the envelope, and nothing else, to the gossip address of each healthy peer,
-- and to no other.
broadcast_iff :
    (e : GossipEnvelope) (n : NetworkService) (k : NodeId) (a : SocketAddr) (g : NetworkMessage)
    → In (k, a, g) (broadcast e n) ↔ (
        (c : PeerConnection) × In (k, c) n.peers
        × (c.healthy ≡ true)
        × (a ≡ c.gossip_addr)
        × (g ≡ gossip e))
unfolding broadcast Target
broadcast_iff e n k a g =
    (sendings-Target e n.peers k a g, λ h. rw (h.3, h.4) (Target-sendings e n.peers k h.0 h.1 h.2))

-- A failed send takes a peer out of later broadcasts for good: to find it again by discovery
-- does not make it healthy.
add_peer-send_failed :
    (now : ℕ) (peer : NodeInfo) (n : NetworkService) (c : PeerConnection)
    → get peer.id n.peers ≡ some c
    → (d : PeerConnection) × (get peer.id (add_peer now peer (send_failed peer.id n)).peers
        ≡ some d)
      × (d.healthy ≡ false)
unfolding add_peer send_failed
add_peer-send_failed now peer n c e = (
  record c { healthy = false },
  ground (
    arith,
    e,
    get-insert peer.id peer.id (record c { healthy = false }) n.peers,
    text_eqb_iff peer.id peer.id,
  ),
  refl,
)

-- A frame above the limit ends its connection with an error. Neither it nor anything behind it is
-- served: the responses and the queued envelopes are those of the reads before it.
handle_connection_too_large :
    (peers : Map NodeId PeerConnection) (before after : List Read) (len : ℕ)
    (body : Result NetworkMessage)
    → max_message_size < len
    → let served = handle_connection peers (before ++ frame len body ∷ after) in
      let alone = handle_connection peers before in
      (served.queued ≡ alone.queued)
      × (served.responses ≡ alone.responses)
      × (alone.outcome ≡ ok tt
          → (served.outcome ≡ ok tt) ⊎ (served.outcome ≡ err (network (text "message too large"))))
unfolding handle_connection
handle_connection_too_large peers [] after len body big = ground arith
handle_connection_too_large peers (end_of_file ∷ before) after len body big = ground arith
handle_connection_too_large peers (failed x ∷ before) after len body big = ground arith
handle_connection_too_large peers (frame l (err x) ∷ before) after len body big = ground arith
handle_connection_too_large peers (frame l (ok m) ∷ before) after len body big =
    ground (arith, handle_connection_too_large peers before after len body big)
