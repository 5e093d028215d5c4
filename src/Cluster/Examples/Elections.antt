-- ===== src/Cluster/Examples/Elections.antt =====
-- Elections at work.
use ironfish.Base.{
  ℕ, true, false, some, List, [], ◌∷◌, Text, text, text_eq, ◌≡◌, refl, inl, arith, Map,
}
use ironfish.Core.Cluster.{NodeInfo, VoteRequest, HeartbeatRequest, leader}
use ironfish.Cluster.Consensus.Raft.{RaftConsensus, vote_read, vote_write}
use ironfish.Cluster.Consensus.Raft
use ironfish.Cluster.Consensus.Bully.{BullyElection}
use ironfish.Cluster.Consensus.Hybrid.{HybridConsensus}
use ironfish.Cluster.Consensus.Hybrid
use ironfish.Cluster.Consensus.History.{Event, vote, campaign, step, votes, TermsFit}
use ironfish.Cluster.Consensus.Votes.{one_vote_per_term}
use ironfish.Cluster.Consensus.Elections.{start_election_wins, request_vote_is_raft}
use ironfish.Cluster.Consensus.Heartbeats.{monitor_deposes}
use ironfish.Cluster.Consensus.Races.{vote_both, vote_twice}
use ironfish.Cluster.Examples.{info, node}

abbrev peers : Map Text NodeInfo
peers = (text "a", info (text "a") 3) ∷ (text "c", info (text "c") 4) ∷ []

abbrev raft : RaftConsensus
raft = record Raft.new { peers = peers }

abbrev bully : BullyElection
bully = record { peers = peers; election_timeout = 5000 }

abbrev consensus : HybridConsensus
consensus = record { node = node; raft = raft; bully = bully; heartbeat_timeout = 5000 }

abbrev request : Text → ℕ → VoteRequest
request candidate term = record { candidate_id = candidate; term = term; priority = 3 }

abbrev beat : HeartbeatRequest
beat = record { leader_id = text "c"; term = 4; commit_index = 9 }

abbrev events : List Event
events = vote false (request (text "a") 5) ∷ vote false (request (text "c") 5) ∷ campaign ∷ []

events-TermsFit : TermsFit consensus events
unfolding step Hybrid.request_vote Raft.request_vote Raft.start_election
events-TermsFit = (ground arith, (ground arith, (ground arith, tt)))

one_vote_per_term_example : text "a" ≡ text "a"
unfolding votes step Hybrid.request_vote Raft.request_vote
one_vote_per_term_example =
    one_vote_per_term consensus events (5, text "a") (5, text "a") events-TermsFit (inl refl)
      (inl refl) refl

start_election_wins_example : (Raft.start_election node raft).2 ≡ true
start_election_wins_example = (start_election_wins node raft).0

request_vote_is_raft_example : Hybrid.request_vote true (request (text "c") 5) consensus ≡ (
    let (n, r, response) = Raft.request_vote node raft (request (text "c") 5) in
    (record consensus { node = n; raft = r }, response))
request_vote_is_raft_example = request_vote_is_raft true (request (text "c") 5) consensus

monitor_deposes_example :
    let (h', missed) =
      Hybrid.monitor ((beat ∷ [], true) ∷ (beat ∷ [], true) ∷ (beat ∷ [], true) ∷ []) consensus 0 in
    (h'.node.state ≡ leader) × (h'.node.leader_id ≡ some (text "b")) × (missed ≡ 0)
monitor_deposes_example =
    monitor_deposes consensus (beat ∷ []) (beat ∷ []) (beat ∷ []) true true true refl refl

vote_twice_example :
    (vote_both node raft (request (text "a") 5) (request (text "c") 5)).3.vote_granted ≡ true
vote_twice_example =
    (vote_twice node raft (request (text "a") 5) (request (text "c") 5) (ground arith) refl).1
