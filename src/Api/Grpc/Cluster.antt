-- ===== src/Api/Grpc/Cluster.antt =====
-- crates/ironfish-api/src/grpc/service.rs: `ClusterAdmin`.
use ironfish.Base.{ℕ, Bool, true, Option, none, some, List, Text, text, map}
use ironfish.Core.Cluster.{NodeId, DateTime, SocketAddr, NodeInfo}
use ironfish.Core.Cluster as Nodes
use ironfish.Cluster.Membership
use ironfish.Cluster.Membership.{MembershipManager, join, leave}
use ironfish.Auth.Token.{Crypto}
use ironfish.Auth.Store.{Codec}
use ironfish.Api.State.{ApiState}
use ironfish.Api.GraphQl.{state_name}
use ironfish.Api.Grpc.{Status, invalid_argument, response}

pub record NodeStatus : Type 0 where
  pub id : Text
  pub address : Text
  pub state : Text
  pub uptime_seconds : ℕ

pub record ClusterStatus : Type 0 where
  pub nodes : List NodeStatus
  pub leader_id : Option Text
  pub term : ℕ
  pub healthy : Bool

pub record JoinRequest : Type 0 where
  pub node_id : Text
  pub address : Text
  pub priority : ℕ

pub record JoinResponse : Type 0 where
  pub accepted : Bool
  pub leader_id : Option Text
  pub members : List Text
  pub term : ℕ

abbrev node_status_of : (SocketAddr → Text) → Nodes.NodeStatus → NodeStatus
node_status_of show n = record {
  id = n.info.id;
  address = show n.info.address;
  state = state_name n.state;
  uptime_seconds = n.uptime_seconds;
}

unfoldable pub status_of : (SocketAddr → Text) → Nodes.ClusterStatus → ClusterStatus
status_of show status = record {
  nodes = map (node_status_of show) status.nodes;
  leader_id = status.leader;
  term = status.term;
  healthy = status.healthy;
}

abbrev id_of : NodeInfo → Text
id_of m = m.id

abbrev join_response : Nodes.JoinResponse → JoinResponse
join_response r = record {
  accepted = r.accepted;
  leader_id = r.leader_id;
  members = map id_of r.members;
  term = r.term;
}

module _ (codec : Codec) (c : Crypto) where
  unfoldable pub get_status : (SocketAddr → Text) → DateTime → ApiState codec c → ClusterStatus
  unfolding status_of
  get_status show now st = status_of show (Membership.cluster_status now st.membership)

  -- `parse` reads the address.
  unfoldable pub join_cluster :
      (Text → Option SocketAddr)
      → DateTime
      → JoinRequest
      → ApiState codec c
      → Status JoinResponse × ApiState codec c
  join_cluster parse now req st = elim (parse req.address) [
    | none ↦ (invalid_argument (text "invalid address"), st)
    | some address ↦
        let (m, r) =
          join
            (record {
              node_info = record {
                id = req.node_id;
                address = address;
                priority = req.priority;
                started_at = now;
                version = text "unknown";
              };
            })
            st.membership in
        (response (join_response r), record st { membership = m })
  ]

  -- The response is `success: true`.
  unfoldable pub leave_cluster : Text → ApiState codec c → Status Bool × ApiState codec c
  leave_cluster node_id st = (response true, record st { membership = leave node_id st.membership })
