-- ===== src/Cluster/Membership.antt =====
-- crates/ironfish-cluster/src/membership.rs. The local node is shared and only read here.
pub mod Laws
use ironfish.Base.{
  ℕ, ◌+◌, Bool, true, false, ◌||◌, Option, none, some, List, [], ◌∷◌, Text, text_eq, Map, get,
  insert, remove, contains_key, values, length, ◌==◌, if◌then◌else◌,
}
use ironfish.Core.Cluster.{
  NodeId, DateTime, NodeInfo, NodeState, follower, NodeStatus, ClusterStatus, JoinRequest,
  JoinResponse,
}
use ironfish.Cluster.Node.{Node, id, is_leader, status}

pub record MembershipManager : Type 0 where
  pub local_node : Node
  pub members : Map NodeId NodeInfo

unfoldable pub new : Node → MembershipManager
new n = record { local_node = n; members = [] }

-- The leader's branch: the new map, with the list of its values taken under the same lock.
unfoldable pub admit : NodeInfo → Node → MembershipManager → MembershipManager × JoinResponse
admit node n m =
    let members = insert node.id node m.members in
    (
      record m { members = members },
      record { accepted = true; leader_id = some (id n); members = values members; term = n.term },
    )

unfoldable pub join : JoinRequest → MembershipManager → MembershipManager × JoinResponse
unfolding admit
join request m =
    let n = m.local_node in
    if is_leader n
    then admit request.node_info n m
    else (m, record { accepted = false; leader_id = n.leader_id; members = []; term = n.term })

unfoldable pub leave : NodeId → MembershipManager → MembershipManager
leave node_id m = record m { members = remove node_id m.members }

unfoldable pub add_member : NodeInfo → MembershipManager → MembershipManager
add_member node m = record m { members = insert node.id node m.members }

unfoldable pub remove_member : NodeId → MembershipManager → MembershipManager
remove_member node_id m = record m { members = remove node_id m.members }

unfoldable pub get_member : NodeId → MembershipManager → Option NodeInfo
get_member node_id m = get node_id m.members

unfoldable pub list_members : MembershipManager → List NodeInfo
list_members m = values m.members

unfoldable pub member_count : MembershipManager → ℕ
member_count m = length m.members + 1

-- The statuses that `cluster_status` pushes for the other nodes.
member_statuses : Node → ℕ → List NodeInfo → List NodeStatus
member_statuses n size [] = []
member_statuses n size (info ∷ infos) =
    record {
      info = info;
      state = follower;
      leader_id = n.leader_id;
      term = n.term;
      cluster_size = size;
      uptime_seconds = 0;
    }
    ∷ member_statuses n size infos

unfoldable pub cluster_status : DateTime → MembershipManager → ClusterStatus
unfolding member_statuses
cluster_status now m =
    let n = m.local_node in
    let size = length m.members + 1 in
    record {
      nodes = status now size n ∷ member_statuses n size (values m.members);
      leader = n.leader_id;
      term = n.term;
      healthy = true;
    }

unfoldable pub is_member : NodeId → MembershipManager → Bool
is_member node_id m = node_id == id m.local_node || contains_key node_id m.members
