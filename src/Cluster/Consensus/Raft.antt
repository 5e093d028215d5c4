-- ===== src/Cluster/Consensus/Raft.antt =====
-- crates/ironfish-cluster/src/consensus/raft.rs. The node that a `RaftConsensus` points to is an
-- argument and a result of each operation, since the bully election writes to the same node.
use ironfish.Base.{
  ℕ, ◌+◌, ◌/◌, Bool, true, false, Option, none, some, text_eq, nat_eq, Map, insert, remove, length,
  keys, ltb, leb, ◌==◌, if◌then◌else◌, List, [], ◌∷◌,
}
use ironfish.Core.Cluster.{
  NodeId, NodeInfo, follower, candidate, leader, leaving, HeartbeatRequest, HeartbeatResponse,
  VoteRequest, VoteResponse,
}
use ironfish.Cluster.Node.{Node, id, set_state, set_leader, set_term, increment_term}

pub record RaftConsensus : Type 0 where
  pub peers : Map NodeId NodeInfo
  pub voted_for : Option NodeId
  pub commit_index : ℕ
  pub heartbeat_interval : ℕ
  pub election_timeout : ℕ

unfoldable pub new : RaftConsensus
new = record {
  peers = [];
  voted_for = none;
  commit_index = 0;
  heartbeat_interval = 1000;
  election_timeout = 5000;
}

unfoldable pub add_peer : NodeInfo → RaftConsensus → RaftConsensus
add_peer peer r = record r { peers = insert peer.id peer r.peers }

unfoldable pub remove_peer : NodeId → RaftConsensus → RaftConsensus
remove_peer peer_id r = record r { peers = remove peer_id r.peers }

unfoldable pub peer_count : RaftConsensus → ℕ
peer_count r = length r.peers

heartbeats_to : Node → ℕ → Map NodeId NodeInfo → List (NodeId × HeartbeatRequest)
heartbeats_to n commit_index [] = []
heartbeats_to n commit_index (p ∷ ps) =
    (p.0, record { leader_id = id n; term = n.term; commit_index = commit_index })
    ∷ heartbeats_to n commit_index ps

-- The requests that are built, one for each peer. The source drops each one unsent.
unfoldable pub send_heartbeats : Node → RaftConsensus → List (NodeId × HeartbeatRequest)
unfolding heartbeats_to
send_heartbeats n r = heartbeats_to n r.commit_index r.peers

unfoldable pub become_leader : Node → Node
become_leader n = set_leader (some (id n)) (set_state leader n)

-- The loop over the peers: each request is built and dropped, and a vote is counted.
unfoldable pub count_votes : ℕ → List NodeId → ℕ
count_votes votes [] = votes
count_votes votes (p ∷ ps) = count_votes (votes + 1) ps

unfoldable pub start_election : Node → RaftConsensus → Node × RaftConsensus × Bool
unfolding count_votes become_leader
start_election n r =
    let n' = set_state candidate (increment_term n) in
    let r' = record r { voted_for = some (id n) } in
    let votes_needed = (length r.peers + 1 + 1) / 2 in
    if leb votes_needed (count_votes 1 (keys r.peers))
    then (become_leader n', r', true)
    else (set_state follower n', r', false)

unfoldable pub start : Node → Node
start n = set_state follower n

unfoldable pub stop : Node → Node
stop n = set_state leaving n

-- A handler of a vote request that has checked the term: it has answered, or has read `voted_for`
-- and let go of the lock.
pub data Ballot : Type 0 where
  answered : VoteResponse → Ballot
  has_read : Option NodeId → Ballot

-- `request_vote` up to the read of `voted_for`.
unfoldable pub vote_read : Node → RaftConsensus → VoteRequest → Node × RaftConsensus × Ballot
vote_read n r request =
    if ltb request.term n.term
    then (n, r, answered (record { node_id = id n; term = n.term; vote_granted = false }))
    else if ltb n.term request.term
    then (
      set_state follower (set_term request.term n),
      record r { voted_for = none },
      has_read none,
    )
    else (n, r, has_read r.voted_for)

-- The rest: `voted_for` is locked again and written if the value read was free.
unfoldable pub vote_write :
    Ballot → Node → RaftConsensus → VoteRequest → RaftConsensus × VoteResponse
vote_write (answered response) n r request = (r, response)
vote_write (has_read none) n r request = (
  record r { voted_for = some request.candidate_id },
  record { node_id = id n; term = n.term; vote_granted = true },
)
vote_write (has_read (some v)) n r request =
    (r, record { node_id = id n; term = n.term; vote_granted = v == request.candidate_id })

-- The handler with nothing between its two parts.
unfoldable pub request_vote :
    Node → RaftConsensus → VoteRequest → Node × RaftConsensus × VoteResponse
unfolding vote_read vote_write
request_vote n r request =
    let (n', r', ballot) = vote_read n r request in
    let (r'', response) = vote_write ballot n' r' request in (n', r'', response)

unfoldable pub append_entries :
    Node → RaftConsensus → HeartbeatRequest → Node × RaftConsensus × HeartbeatResponse
append_entries n r request =
    if ltb request.term n.term
    then (n, r, record { node_id = id n; term = n.term; success = false; metrics = n.metrics })
    else let n₁ = if ltb n.term request.term then set_term request.term n else n in
      let n₂ = set_leader (some request.leader_id) (set_state follower n₁) in
      let commit =
        if ltb r.commit_index request.commit_index then request.commit_index else r.commit_index in
      (
        n₂,
        record r { commit_index = commit },
        record { node_id = id n₂; term = n₂.term; success = true; metrics = n₂.metrics },
      )
