-- ===== src/Cluster/Consensus/Bully.antt =====
-- crates/ironfish-cluster/src/consensus/bully.rs. The messages to the peers are only logged.
use ironfish.Base.{
  ℕ, Bool, true, false, some, text_eq, Map, insert, remove, values, ltb, any, if◌then◌else◌, [],
}
use ironfish.Core.Cluster.{NodeId, NodeInfo, follower, candidate, leader}
use ironfish.Cluster.Node.{Node, id, priority, set_state, set_leader, increment_term}

pub record BullyElection : Type 0 where
  pub peers : Map NodeId NodeInfo
  pub election_timeout : ℕ

unfoldable pub new : BullyElection
new = record { peers = []; election_timeout = 5000 }

unfoldable pub add_peer : NodeInfo → BullyElection → BullyElection
add_peer peer b = record b { peers = insert peer.id peer b.peers }

unfoldable pub remove_peer : NodeId → BullyElection → BullyElection
remove_peer peer_id b = record b { peers = remove peer_id b.peers }

unfoldable pub declare_victory : Node → Node
declare_victory n = increment_term (set_leader (some (id n)) (set_state leader n))

abbrev pub has_higher : ℕ → BullyElection → Bool
has_higher mine b = any (λ info. ltb mine info.priority) (values b.peers)

-- `wait_for_coordinator` sleeps for the election timeout, and so does the `timeout` around it:
-- `slept` says which of the two timers the runtime saw first.
unfoldable pub start_election : Bool → BullyElection → Node → Node × Bool
unfolding declare_victory
start_election slept b n =
    let n' = set_state candidate n in
    if has_higher (priority n) b
    then (if slept then (set_state follower n', false) else (declare_victory n', true))
    else (declare_victory n', true)

unfoldable pub handle_election_message : Bool → BullyElection → ℕ → Node → Node
handle_election_message slept b from_priority n =
    if ltb from_priority (priority n) then (start_election slept b n).0 else n

unfoldable pub handle_coordinator_message : NodeId → Node → Node
handle_coordinator_message leader_id n = set_leader (some leader_id) (set_state follower n)
