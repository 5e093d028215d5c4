-- ===== src/Cluster/Consensus/History.antt =====
-- What a node's handlers do over any sequence of messages and timeouts, each handled whole.
use ironfish.Base.{ℕ, ◌+◌, ◌<◌, Bool, true, false, List, [], ◌∷◌, ◌++◌, text_eq}
use ironfish.Core.Cluster.{NodeId, NodeInfo, HeartbeatRequest, VoteRequest}
use ironfish.Cluster.Node.{u64_mod}
use ironfish.Cluster.Consensus.Raft
use ironfish.Cluster.Consensus.Bully
use ironfish.Cluster.Consensus.Hybrid
use ironfish.Cluster.Consensus.Hybrid.{HybridConsensus}

-- What reaches a node: messages, changes of its peers, and the two ways to an election.
pub data Event : Type 0 where
  vote : Bool → VoteRequest → Event
  heartbeat : HeartbeatRequest → Event
  coordinator : NodeId → Event
  times_out : Bool → Event
  campaign : Event
  joins : NodeInfo → Event
  leaves : NodeId → Event

-- A vote that the node gave: the term and the candidate.
abbrev pub Grant : Type 0
Grant = ℕ × NodeId

abbrev granted : Bool → Grant → List Grant
granted true g = g ∷ []
granted false g = []

-- The state after an event, and the vote that it gave, its own at a raft election included.
unfoldable pub step : HybridConsensus → Event → HybridConsensus × List Grant
step h (vote slept request) =
    let (h', response) = Hybrid.request_vote slept request h in
    (h', granted response.vote_granted (response.term, request.candidate_id))
step h (heartbeat request) = ((Hybrid.append_entries request h).0, [])
step h (coordinator l) = (record h { node = Bully.handle_coordinator_message l h.node }, [])
step h (times_out slept) = (Hybrid.trigger_election slept h, [])
step h campaign =
    let (n, r, won) = Raft.start_election h.node h.raft in
    (record h { node = n; raft = r }, (n.term, n.info.id) ∷ [])
step h (joins peer) = (Hybrid.add_peer peer h, [])
step h (leaves peer_id) = (Hybrid.remove_peer peer_id h, [])

unfoldable pub votes : HybridConsensus → List Event → List Grant
votes h [] = []
votes h (e ∷ es) = let (h', g) = step h e in g ++ votes h' es

unfoldable pub run : HybridConsensus → List Event → HybridConsensus
run h [] = h
run h (e ∷ es) = run (step h e).0 es

-- No event of the run finds the term at its last value, from which `increment_term` wraps to 0.
abbrev pub TermsFit : HybridConsensus → List Event → Type 0
TermsFit h [] = Unit {0}
TermsFit h (e ∷ es) = (h.node.term + 1 < u64_mod) × TermsFit (step h e).0 es
