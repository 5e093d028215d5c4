-- ===== src/Cluster/Membership/Laws.antt =====
-- What the membership manager promises its callers: the API's join and leave, and discovery.
use ironfish.Base.{
  Bool-cases, ℕ, suc, ◌+◌, true, false, some, List, [], ◌∷◌, Text, text_eq, Map, insert,
  contains_key, values, length, ◌==◌, if◌then◌else◌, get-insert, get-remove, length-insert, In, ◌≡◌,
  refl, ap, ◌⊎◌, inl, inr, arith,
}
use ironfish.Core.Cluster.{NodeId, DateTime, NodeInfo, JoinRequest}
use ironfish.Cluster.Node.{Node, id, is_leader}
use ironfish.Cluster.Membership.{
  MembershipManager, join, leave, add_member, get_member, member_count, is_member, cluster_status,
  member_statuses,
}

In-insert : (k : Text) (v : NodeInfo) (m : Map Text NodeInfo) → In v (values (insert k v m))
unfolding insert
In-insert k v [] = inl refl
In-insert k v ((j, w) ∷ m) = ground (arith, In-insert k v m)

-- Only a leader accepts a join. It then answers with itself as leader and a list of members that
-- holds the newcomer; a lookup finds the newcomer, and every other member as before; the count
-- grows by one unless the identifier was there. A refused join changes nothing and names the
-- leader that the node knows of.
join_lem :
    (request : JoinRequest) (m : MembershipManager)
    → let (m', response) = join request m in
      let node = request.node_info in
      ((is_leader m.local_node ≡ true)
        × (response.accepted ≡ true)
        × (response.leader_id ≡ some (id m.local_node))
        × (In node response.members)
        × ((k : NodeId) → get_member k m' ≡ (if node.id == k then some node else get_member k m))
        × (member_count m'
            ≡ (if contains_key node.id m.members then member_count m else suc (member_count m))))
      ⊎ ((is_leader m.local_node ≡ false)
          × (response.accepted ≡ false)
          × (response.leader_id ≡ m.local_node.leader_id)
          × (response.members ≡ [])
          × (m' ≡ m))
unfolding join get_member member_count
join_lem request m =
    let node = request.node_info in
    elim (Bool-cases (is_leader m.local_node)) [
      | inl e ↦ inl (
        e,
        ground arith,
        ground arith,
        ground (arith, In-insert node.id node m.members),
        λ k. ground (arith, get-insert node.id k node m.members),
        ground (arith, length-insert node.id node m.members),
      )
      | inr e ↦ inr (e, ground arith, ground arith, ground arith, ground arith)
    ]

-- After `leave`, a node is a member only if it is the local one; every other answer is unchanged.
is_member-leave :
    (k j : NodeId) (m : MembershipManager)
    → is_member j (leave k m) ≡ (if k == j then j == id m.local_node else is_member j m)
unfolding is_member leave
is_member-leave k j m = ground (arith, get-remove k j m.members)

-- After `add_member`, the new node is a member and every other answer is unchanged.
is_member-add_member :
    (node : NodeInfo) (j : NodeId) (m : MembershipManager)
    → is_member j (add_member node m) ≡ (if node.id == j then true else is_member j m)
unfolding is_member add_member
is_member-add_member node j m = ground (arith, get-insert node.id j node m.members)

length-member_statuses :
    (n : Node) (size : ℕ) (infos : List NodeInfo)
    → length (member_statuses n size infos) ≡ length infos
unfolding member_statuses
length-member_statuses n size [] = refl
length-member_statuses n size (x ∷ infos) = ap suc (length-member_statuses n size infos)

length-values : {V : Type 0} (m : Map Text V) → length (values m) ≡ length m
length-values [] = refl
length-values (e ∷ m) = ap suc (length-values m)

-- A status report has one entry for each node that is counted, and each entry gives that count.
length-cluster_status :
    (now : DateTime) (m : MembershipManager) → length (cluster_status now m).nodes ≡ member_count m
unfolding cluster_status member_count
length-cluster_status now m = omega (
  arith,
  length-member_statuses m.local_node (length m.members + 1) (values m.members),
  length-values m.members,
)
