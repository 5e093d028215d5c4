-- ===== src/Cluster/Consensus/Hybrid.antt =====
-- crates/ironfish-cluster/src/consensus/hybrid.rs: raft's messages over bully elections. One state
-- holds the shared node beside the two parts that write to it.
use ironfish.Base.{ℕ, ◌+◌, Bool, ltb, leb, if◌then◌else◌, List, [], ◌∷◌}
use ironfish.Core.Cluster.{
  NodeId, NodeInfo, NodeState, follower, leader, leaving, HeartbeatRequest, HeartbeatResponse,
  VoteRequest, VoteResponse,
}
use ironfish.Cluster.Node.{Node, priority, set_state}
use ironfish.Cluster.Consensus.Raft
use ironfish.Cluster.Consensus.Raft.{RaftConsensus}
use ironfish.Cluster.Consensus.Bully
use ironfish.Cluster.Consensus.Bully.{BullyElection}

pub record HybridConsensus : Type 0 where
  pub node : Node
  pub raft : RaftConsensus
  pub bully : BullyElection
  pub heartbeat_timeout : ℕ

unfoldable pub new : Node → HybridConsensus
new n = record { node = n; raft = Raft.new; bully = Bully.new; heartbeat_timeout = 5000 }

unfoldable pub add_peer : NodeInfo → HybridConsensus → HybridConsensus
add_peer peer h = record h { raft = Raft.add_peer peer h.raft; bully = Bully.add_peer peer h.bully }

unfoldable pub remove_peer : NodeId → HybridConsensus → HybridConsensus
remove_peer peer_id h = record h {
  raft = Raft.remove_peer peer_id h.raft;
  bully = Bully.remove_peer peer_id h.bully;
}

-- `start`, but for the task that it spawns, which is `monitor_tick` below.
unfoldable pub start : HybridConsensus → HybridConsensus
start h = record h { node = set_state follower (Raft.start h.node) }

unfoldable pub stop : HybridConsensus → HybridConsensus
stop h = record h { node = set_state leaving (Raft.stop h.node) }

unfoldable pub request_vote : Bool → VoteRequest → HybridConsensus → HybridConsensus × VoteResponse
request_vote slept request h =
    let n =
      if ltb (priority h.node) request.priority
      then Bully.handle_election_message slept h.bully request.priority h.node
      else h.node in
    let (n', r, response) = Raft.request_vote n h.raft request in
    (record h { node = n'; raft = r }, response)

unfoldable pub append_entries :
    HeartbeatRequest → HybridConsensus → HybridConsensus × HeartbeatResponse
append_entries request h =
    let (n, r, response) = Raft.append_entries h.node h.raft request in
    (record h { node = n; raft = r }, response)

unfoldable pub trigger_election : Bool → HybridConsensus → HybridConsensus
trigger_election slept h = record h { node = (Bully.start_election slept h.bully h.node).0 }

-- One round of the task that `start` spawns: its counter of missed heartbeats, and the election.
monitor_by : NodeState → Bool → ℕ → HybridConsensus → HybridConsensus × ℕ
unfolding trigger_election
monitor_by follower slept missed h =
    if leb 3 (missed + 1) then (trigger_election slept h, 0) else (h, missed + 1)
monitor_by leader slept missed h = (h, 0)
monitor_by _ slept missed h = (h, missed)

unfoldable pub monitor_tick : Bool → HybridConsensus → ℕ → HybridConsensus × ℕ
unfolding monitor_by
monitor_tick slept h missed = monitor_by h.node.state slept missed h

-- One round of `run_leader_detection`, which clears its counter in every state but follower.
detect_by : NodeState → Bool → ℕ → HybridConsensus → HybridConsensus × ℕ
unfolding trigger_election
detect_by follower slept missed h =
    if leb 3 (missed + 1) then (trigger_election slept h, 0) else (h, missed + 1)
detect_by _ slept missed h = (h, 0)

unfoldable pub run_leader_detection : Bool → HybridConsensus → ℕ → HybridConsensus × ℕ
unfolding detect_by
run_leader_detection slept h missed = detect_by h.node.state slept missed h

-- Heartbeats from a leader, as they arrive between two rounds of a task.
unfoldable pub receive : List HeartbeatRequest → HybridConsensus → HybridConsensus
receive [] h = h
receive (q ∷ qs) h = receive qs (append_entries q h).0

-- The spawned task over several rounds: for each, the heartbeats that come before its timer, and
-- which timer an election in it would see first.
unfoldable pub monitor :
    List (List HeartbeatRequest × Bool) → HybridConsensus → ℕ → HybridConsensus × ℕ
unfolding receive
monitor [] h missed = (h, missed)
monitor ((qs, slept) ∷ rounds) h missed =
    let (h', missed') = monitor_tick slept (receive qs h) missed in monitor rounds h' missed'
