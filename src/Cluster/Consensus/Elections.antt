-- ===== src/Cluster/Consensus/Elections.antt =====
-- Who wins an election, and when one is held.
use ironfish.Base.{
  ℕ, suc, ◌+◌, ◌%◌, ◌≤◌, some, List, [], ◌∷◌, All, ◌≡◌, refl, ap, ◌⊎◌, ◌↔◌, Bool, true, false,
  arith, Text, text_eq, Map, keys, values, length, any, ltb,
}
use ironfish.Core.Cluster.{NodeId, NodeInfo, follower, leader, VoteRequest}
use ironfish.Cluster.Node.{Node, id, priority, u64_mod, set_state}
use ironfish.Cluster.Consensus.Raft
use ironfish.Cluster.Consensus.Raft.{RaftConsensus}
use ironfish.Cluster.Consensus.Bully
use ironfish.Cluster.Consensus.Bully.{BullyElection, has_higher}
use ironfish.Cluster.Consensus.Hybrid
use ironfish.Cluster.Consensus.Hybrid.{HybridConsensus}

count_votes_lem : (votes : ℕ) (ps : List NodeId) → Raft.count_votes votes ps ≡ votes + length ps
unfolding Raft.count_votes
count_votes_lem votes [] = omega arith
count_votes_lem votes (p ∷ ps) = omega (arith, count_votes_lem (votes + 1) ps)

length-keys : {V : Type 0} (m : Map Text V) → length (keys m) ≡ length m
length-keys [] = refl
length-keys (e ∷ m) = ap suc (length-keys m)

-- A raft election is won whatever the peers would answer: the node is leader of a new term, has
-- voted for itself, and the peers are as they were.
pub start_election_wins :
    (n : Node) (r : RaftConsensus)
    → let (n', r', won) = Raft.start_election n r in
      (won ≡ true)
      × (n'.state ≡ leader)
      × (n'.leader_id ≡ some (id n))
      × (n'.term ≡ (n.term + 1) % u64_mod)
      × (r' ≡ record r { voted_for = some (id n) })
unfolding Raft.start_election
start_election_wins n r = ground (arith, count_votes_lem 1 (keys r.peers), length-keys r.peers)

-- A vote request is handled as raft alone would handle it: the bully election that a candidate of
-- higher priority is meant to set off is never held.
pub request_vote_is_raft :
    (slept : Bool) (request : VoteRequest) (h : HybridConsensus)
    → Hybrid.request_vote slept request h ≡ (
        let (n, r, response) = Raft.request_vote h.node h.raft request in
        (record h { node = n; raft = r }, response))
unfolding Hybrid.request_vote Bully.handle_election_message
request_vote_is_raft slept request h = ground arith

has_higher_iff :
    (mine : ℕ) (infos : List NodeInfo)
    → (any (λ info. ltb mine info.priority) infos ≡ false)
      ↔ All (λ info. info.priority ≤ mine) infos
has_higher_iff mine [] = ground arith
has_higher_iff mine (x ∷ infos) = ground (arith, has_higher_iff mine infos)

-- A bully election is lost exactly when some peer has a higher priority and the wait for its
-- message ends first. The winner leads a new term; the loser follows in the old one.
start_election_outcome :
    (slept : Bool) (b : BullyElection) (n : Node)
    → let (n', won) = Bully.start_election slept b n in
      ((won ≡ true)
        × (n'.state ≡ leader)
        × (n'.leader_id ≡ some (id n))
        × (n'.term ≡ (n.term + 1) % u64_mod)
        × (slept ≡ false ⊎ All (λ info. info.priority ≤ priority n) (values b.peers)))
      ⊎ ((won ≡ false)
          × (n' ≡ set_state follower n)
          × (slept ≡ true)
          × ¬ All (λ info. info.priority ≤ priority n) (values b.peers))
unfolding Bully.start_election
start_election_outcome slept b n = ground (arith, has_higher_iff (priority n) (values b.peers))
