-- ===== src/Cluster/Consensus/Votes.antt =====
-- Raft's promise about votes, over the handlers of raft.rs, bully.rs and hybrid.rs together.
use ironfish.Base.{
  ℕ, ◌+◌, ◌≤◌, ◌<◌, Option, none, some, List, [], ◌∷◌, All, All-append, All-map, All-In, In,
  In-append, ◌≡◌, refl, ◌⊎◌, inl, inr, Bool, arith, text_eq, text_eqb_iff,
}
use ironfish.Core.Cluster.{NodeId, VoteRequest}
use ironfish.Cluster.Node.{u64_mod}
use ironfish.Cluster.Consensus.Raft
use ironfish.Cluster.Consensus.Bully
use ironfish.Cluster.Consensus.Hybrid
use ironfish.Cluster.Consensus.Elections.{request_vote_is_raft}
use ironfish.Cluster.Consensus.Hybrid.{HybridConsensus}
use ironfish.Cluster.Consensus.History.{
  Event, vote, heartbeat, coordinator, times_out, campaign, joins, leaves, Grant, step, votes, run,
  TermsFit,
}

abbrev term : HybridConsensus → ℕ
term h = h.node.term

-- What one event does to the term and the vote.
record Moves (h h' : HybridConsensus) (gs : List Grant) : Type 0 where
  rises : term h ≤ term h'
  keeps : (v : NodeId) → term h' ≡ term h → h.raft.voted_for ≡ some v → h'.raft.voted_for ≡ some v
  gives : All (λ g. (g.0 ≡ term h') × (h'.raft.voted_for ≡ some g.1)) gs

step-vote :
    (slept : Bool) (request : VoteRequest) (h : HybridConsensus) (o : Option NodeId)
    → h.raft.voted_for ≡ o
    → All
        (λ g.
          (g.0 ≡ term (step h (vote slept request)).0)
          × ((step h (vote slept request)).0.raft.voted_for ≡ some g.1))
        (step h (vote slept request)).1
unfolding step Raft.request_vote
step-vote slept request h none e = rw (request_vote_is_raft slept request h, step) (ground arith)
step-vote slept request h (some v) e =
    rw (request_vote_is_raft slept request h, step)
      (ground (arith, text_eqb_iff v request.candidate_id))

step-Moves :
    (h : HybridConsensus) (e : Event) → term h + 1 < u64_mod → Moves h (step h e).0 (step h e).1
unfolding step Hybrid.request_vote Raft.request_vote Bully.handle_election_message
    Bully.start_election Hybrid.append_entries Raft.append_entries Bully.handle_coordinator_message
    Hybrid.trigger_election Raft.start_election Hybrid.add_peer Hybrid.remove_peer Raft.add_peer
    Raft.remove_peer
step-Moves h (vote slept request) fit = record {
  rises = ground arith;
  keeps = λ v. ground arith;
  gives = step-vote slept request h h.raft.voted_for refl;
}
step-Moves h (heartbeat request) fit = ground arith
step-Moves h (coordinator l) fit = ground arith
step-Moves h (times_out slept) fit = ground arith
step-Moves h campaign fit = ground arith
step-Moves h (joins peer) fit = ground arith
step-Moves h (leaves peer_id) fit = ground arith

-- A vote that can still be given: not of an earlier term, and not against the vote of this one.
abbrev Possible : HybridConsensus → Grant → Type 0
Possible h g = (term h ≤ g.0) × ((v : NodeId) → g.0 ≡ term h → h.raft.voted_for ≡ some v → g.1 ≡ v)

Possible-earlier :
    (h h' : HybridConsensus) (gs : List Grant) (g : Grant)
    → Moves h h' gs
    → Possible h' g
    → Possible h g
Possible-earlier h h' gs g m (later, bound) = (
  omega (arith, m.rises),
  λ v e k. bound v (omega (arith, m.rises)) (m.keeps v (omega (arith, m.rises)) k),
)

Moves-Possible : (h h' : HybridConsensus) (gs : List Grant) → Moves h h' gs → All (Possible h) gs
Moves-Possible h h' gs m =
    All-map _ (Possible h) gs
      (λ g k. (
        omega (arith, m.rises, k.0),
        λ v e held. ground (arith, m.keeps v (omega (arith, k.0)) held, k),
      ))
      m.gives

votes-Possible :
    (h : HybridConsensus) (es : List Event) → TermsFit h es → All (Possible h) (votes h es)
unfolding votes
votes-Possible h [] fit = tt
votes-Possible h (e ∷ es) fit =
    let m = step-Moves h e fit.0 in
    All-append (Possible h) _ _ (Moves-Possible h _ _ m)
      (All-map _ _ _ (λ g k. Possible-earlier h _ _ g m k) (votes-Possible (step h e).0 es fit.1))

-- Over any events, each handled whole and with no term at its last value, a node never gives its
-- votes of one term to two candidates.
pub one_vote_per_term :
    (h : HybridConsensus) (es : List Event) (g g' : Grant)
    → TermsFit h es
    → In g (votes h es)
    → In g' (votes h es)
    → g.0 ≡ g'.0
    → g.1 ≡ g'.1
unfolding votes
one_vote_per_term h [] g g' fit m m' e = elim m [ ]
one_vote_per_term h (e ∷ es) g g' fit m m' same =
    joined (λ a b. one_vote_per_term (step h e).0 es g g' fit.1 a b same) (In-append g gs _ m)
      (In-append g' gs _ m')
  where
    gs : List Grant
    gs = (step h e).1

    h' : HybridConsensus
    h' = (step h e).0

    moves : Moves h h' gs
    moves = step-Moves h e fit.0

    later : All (Possible h') (votes h' es)
    later = votes-Possible h' es fit.1

    joined :
        (In g (votes h' es) → In g' (votes h' es) → g.1 ≡ g'.1)
        → In g gs ⊎ In g (votes h' es)
        → In g' gs ⊎ In g' (votes h' es)
        → g.1 ≡ g'.1
    joined rec (inl a) (inl b) =
        ground (arith, All-In _ gs g moves.gives a, All-In _ gs g' moves.gives b)
    joined rec (inl a) (inr b) =
        ground (arith, All-In _ gs g moves.gives a, (All-In (Possible h') _ g' later b).1 g.1)
    joined rec (inr a) (inl b) =
        ground (arith, All-In _ gs g' moves.gives b, (All-In (Possible h') _ g later a).1 g'.1)
    joined rec (inr a) (inr b) = rec a b

step-commit :
    (h : HybridConsensus) (e : Event) → h.raft.commit_index ≤ (step h e).0.raft.commit_index
unfolding step Raft.request_vote Raft.append_entries Hybrid.append_entries Hybrid.trigger_election
    Raft.start_election Hybrid.add_peer Hybrid.remove_peer Raft.add_peer Raft.remove_peer
step-commit h (vote slept request) = rw (request_vote_is_raft slept request h, step) (ground arith)
step-commit h _ = ground arith

-- Over any events, with no term at its last value, neither the term nor the commit index falls.
run_rises :
    (h : HybridConsensus) (es : List Event)
    → TermsFit h es
    → (term h ≤ term (run h es)) × (h.raft.commit_index ≤ (run h es).raft.commit_index)
unfolding run
run_rises h [] fit = omega arith
run_rises h (e ∷ es) fit =
    omega (arith, (step-Moves h e fit.0).rises, step-commit h e, run_rises (step h e).0 es fit.1)
