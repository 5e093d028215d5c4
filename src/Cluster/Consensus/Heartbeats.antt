-- ===== src/Cluster/Consensus/Heartbeats.antt =====
-- The task that watches for the leader, against the heartbeats that the leader sends.
use ironfish.Base.{◌≤◌, ◌<◌, some, List, [], ◌∷◌, ◌≡◌, refl, ◌⊎◌, Bool, true, false, arith, text_eq}
use ironfish.Core.Cluster.{follower, leader, HeartbeatRequest}
use ironfish.Cluster.Node.{Node, id, priority}
use ironfish.Cluster.Consensus.Raft
use ironfish.Cluster.Consensus.Raft.{RaftConsensus}
use ironfish.Cluster.Consensus.Bully
use ironfish.Cluster.Consensus.Bully.{has_higher}
use ironfish.Cluster.Consensus.Hybrid
use ironfish.Cluster.Consensus.Hybrid.{HybridConsensus}

-- A heartbeat is refused exactly when its term is stale, and then nothing changes. Otherwise the
-- node follows its sender in the heartbeat's term, and its commit index is the larger of the two.
append_entries_lem :
    (n : Node) (r : RaftConsensus) (q : HeartbeatRequest)
    → let (n', r', response) = Raft.append_entries n r q in
      ((q.term < n.term)
        × (response.success ≡ false)
        × (response.term ≡ n.term)
        × (n' ≡ n)
        × (r' ≡ r))
      ⊎ ((n.term ≤ q.term)
          × (response.success ≡ true)
          × (n'.term ≡ q.term)
          × (n'.state ≡ follower)
          × (n'.leader_id ≡ some q.leader_id)
          × (r.commit_index ≤ r'.commit_index)
          × (q.commit_index ≤ r'.commit_index)
          × ((r'.commit_index ≡ r.commit_index) ⊎ (r'.commit_index ≡ q.commit_index)))
unfolding Raft.append_entries
append_entries_lem n r q = ground arith

-- What heartbeats leave alone in a follower.
record Follows (h h' : HybridConsensus) : Type 0 where
  follows : h'.node.state ≡ follower
  same_bully : h'.bully ≡ h.bully
  same_info : h'.node.info ≡ h.node.info

receive-Follows :
    (qs : List HeartbeatRequest) (h : HybridConsensus)
    → h.node.state ≡ follower
    → Follows h (Hybrid.receive qs h)
unfolding Hybrid.receive Hybrid.append_entries Raft.append_entries
receive-Follows [] h s = record { follows = s; same_bully = refl; same_info = refl }
receive-Follows (q ∷ qs) h s = ground (arith, receive-Follows qs (Hybrid.append_entries q h).0)

-- The heartbeats of a live leader do not reset the count of missed ones: a follower that nobody
-- outranks takes over in the third round, however many heartbeats came before each round.
pub monitor_deposes :
    (h : HybridConsensus) (qs₁ qs₂ qs₃ : List HeartbeatRequest) (b₁ b₂ b₃ : Bool)
    → h.node.state ≡ follower
    → has_higher (priority h.node) h.bully ≡ false
    → let (h', missed) = Hybrid.monitor ((qs₁, b₁) ∷ (qs₂, b₂) ∷ (qs₃, b₃) ∷ []) h 0 in
      (h'.node.state ≡ leader) × (h'.node.leader_id ≡ some (id h.node)) × (missed ≡ 0)
unfolding Hybrid.monitor Hybrid.monitor_tick Bully.start_election
monitor_deposes h qs₁ qs₂ qs₃ b₁ b₂ b₃ s top =
    let h₁ = Hybrid.receive qs₁ h in
    let h₂ = Hybrid.receive qs₂ h₁ in
    ground (arith, receive-Follows qs₁ h s, receive-Follows qs₂ h₁, receive-Follows qs₃ h₂)
