-- ===== src/Cluster/Node.antt =====
-- crates/ironfish-cluster/src/node.rs: the local node, which raft, bully and membership share.
-- Its locks and atomics are read and written whole, so an operation is a state transformer.
use ironfish.Base.{
  ℕ, ◌+◌, ◌-◌, ◌/◌, ◌%◌, Bool, true, false, Option, none, some, Text, leb, if◌then◌else◌,
}
use ironfish.Core.Cluster.{
  NodeId, DateTime, SocketAddr, NodeInfo, NodeState, starting, leader, NodeStatus, NodeMetrics,
  default_metrics,
}

-- 2 ^ 64
abbrev pub u64_mod : ℕ
u64_mod = 18446744073709551616

abbrev pub nanos_per_second : ℕ
nanos_per_second = 1000000000

pub record NodeConfig : Type 0 where
  pub id : Option Text
  pub bind_address : SocketAddr
  pub priority : ℕ
  pub version : Text

pub record Node : Type 0 where
  pub info : NodeInfo
  pub state : NodeState
  pub leader_id : Option NodeId
  pub term : ℕ
  pub metrics : NodeMetrics
  pub started_at : DateTime

-- `NodeId::generate` is a random UUID, here the argument `generated`.
abbrev id_or : Text → Option Text → NodeId
id_or generated none = generated
id_or generated (some s) = s

unfoldable pub new : Text → DateTime → NodeConfig → Node
new generated now config = record {
  info = record {
    id = id_or generated config.id;
    address = config.bind_address;
    priority = config.priority;
    started_at = now;
    version = config.version;
  };
  state = starting;
  leader_id = none;
  term = 0;
  metrics = default_metrics;
  started_at = now;
}

abbrev pub id : Node → NodeId
id n = n.info.id

abbrev pub priority : Node → ℕ
priority n = n.info.priority

abbrev pub set_state : NodeState → Node → Node
set_state s n = record n { state = s }

abbrev pub set_leader : Option NodeId → Node → Node
set_leader l n = record n { leader_id = l }

abbrev pub set_term : ℕ → Node → Node
set_term t n = record n { term = t }

-- `fetch_add` on an `AtomicU64` wraps.
abbrev pub increment_term : Node → Node
increment_term n = record n { term = (n.term + 1) % u64_mod }

abbrev pub update_metrics : NodeMetrics → Node → Node
update_metrics m n = record n { metrics = m }

abbrev pub is_leader_state : NodeState → Bool
is_leader_state leader = true
is_leader_state _ = false

abbrev pub is_leader : Node → Bool
is_leader n = is_leader_state n.state

-- `(now - started_at).num_seconds() as u64`: a clock that went back gives a negative number of
-- seconds, which the cast wraps.
abbrev uptime : DateTime → DateTime → ℕ
uptime now started =
    if leb started now
    then (now - started) / nanos_per_second
    else (u64_mod - (started - now) / nanos_per_second) % u64_mod

unfoldable pub status : DateTime → ℕ → Node → NodeStatus
status now cluster_size n = record {
  info = n.info;
  state = n.state;
  leader_id = n.leader_id;
  term = n.term;
  cluster_size = cluster_size;
  uptime_seconds = uptime now n.started_at;
}
