-- ===== src/Cluster/Consensus/Races.antt =====
-- Two vote requests at once: each handler reads `voted_for` under one lock and writes it under
-- another.
use ironfish.Base.{◌<◌, ◌≡◌, true, some, arith, text_eq}
use ironfish.Core.Cluster.{VoteRequest, VoteResponse}
use ironfish.Cluster.Node.{Node}
use ironfish.Cluster.Consensus.Raft
use ironfish.Cluster.Consensus.Raft.{RaftConsensus}

-- Both requests are read before either is written.
pub vote_both :
    Node
    → RaftConsensus
    → VoteRequest
    → VoteRequest
    → Node × RaftConsensus × VoteResponse × VoteResponse
vote_both n r p q =
    let (n₁, r₁, ballot) = Raft.vote_read n r p in
    let (n₂, r₂, ballot') = Raft.vote_read n₁ r₁ q in
    let (r₃, response) = Raft.vote_write ballot n₂ r₂ p in
    let (r₄, response') = Raft.vote_write ballot' n₂ r₃ q in (n₂, r₄, response, response')

-- Two requests of one term, newer than the node's, of which both are read before either is written,
-- are both granted in that term, also if they come from two candidates, and the node then counts as
-- having voted for the one that is written last.
pub vote_twice :
    (n : Node) (r : RaftConsensus) (p q : VoteRequest)
    → n.term < p.term
    → q.term ≡ p.term
    → let (n', r', response, response') = vote_both n r p q in
      (response.vote_granted ≡ true)
      × (response'.vote_granted ≡ true)
      × (response.term ≡ p.term)
      × (response'.term ≡ p.term)
      × (n'.term ≡ p.term)
      × (r'.voted_for ≡ some q.candidate_id)
unfolding vote_both Raft.vote_read Raft.vote_write
vote_twice n r p q newer same = ground arith
