-- ===== src/Core/Cluster.antt =====
-- crates/ironfish-core/src/types/cluster.rs: nodes, their metrics, and the cluster's messages.
-- A `u64` or `u32` is a number below its modulus, an `f32` its 32 bits, and an instant the
-- nanoseconds since 1970.
use ironfish.Base.{ℕ, Bool, Option, List, Text}

abbrev pub NodeId : Type 0
NodeId = Text

abbrev pub DateTime : Type 0
DateTime = ℕ

abbrev pub Float32 : Type 0
Float32 = ℕ

pub record SocketAddr : Type 0 where
  pub ip : ℕ
  pub port : ℕ

pub record NodeInfo : Type 0 where
  pub id : NodeId
  pub address : SocketAddr
  pub priority : ℕ
  pub started_at : DateTime
  pub version : Text

pub data NodeState : Type 0 where
  starting joining follower candidate leader leaving dead : NodeState

pub record NodeStatus : Type 0 where
  pub info : NodeInfo
  pub state : NodeState
  pub leader_id : Option NodeId
  pub term : ℕ
  pub cluster_size : ℕ
  pub uptime_seconds : ℕ

pub record NodeMetrics : Type 0 where
  pub cpu_usage : Float32
  pub memory_usage : Float32
  pub active_analyses : ℕ
  pub queue_depth : ℕ
  pub avg_latency_ms : ℕ
  pub total_requests : ℕ
  pub engines_available : ℕ
  pub engines_total : ℕ

-- `NodeMetrics::default()`; the bits of 0.0 are 0.
abbrev pub default_metrics : NodeMetrics
default_metrics = record {
  cpu_usage = 0;
  memory_usage = 0;
  active_analyses = 0;
  queue_depth = 0;
  avg_latency_ms = 0;
  total_requests = 0;
  engines_available = 0;
  engines_total = 0;
}

pub record ClusterStatus : Type 0 where
  pub nodes : List NodeStatus
  pub leader : Option NodeId
  pub term : ℕ
  pub healthy : Bool

pub record JoinRequest : Type 0 where
  pub node_info : NodeInfo

pub record JoinResponse : Type 0 where
  pub accepted : Bool
  pub leader_id : Option NodeId
  pub members : List NodeInfo
  pub term : ℕ

pub record HeartbeatRequest : Type 0 where
  pub leader_id : NodeId
  pub term : ℕ
  pub commit_index : ℕ

pub record HeartbeatResponse : Type 0 where
  pub node_id : NodeId
  pub term : ℕ
  pub success : Bool
  pub metrics : NodeMetrics

pub record VoteRequest : Type 0 where
  pub candidate_id : NodeId
  pub term : ℕ
  pub priority : ℕ

pub record VoteResponse : Type 0 where
  pub node_id : NodeId
  pub term : ℕ
  pub vote_granted : Bool
