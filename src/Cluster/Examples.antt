-- ===== src/Cluster/Examples.antt =====
-- The theorems of the cluster at work on small clusters of three nodes.
mod Elections
mod Messages
mod Choices
mod Peers
use ironfish.Base.{ℕ, Option, none, some, List, [], ◌∷◌, Text, text}
use ironfish.Core.Cluster.{NodeId, NodeInfo, follower, leader, default_metrics}
use ironfish.Cluster.Node.{Node}

abbrev pub info : Text → ℕ → NodeInfo
info id priority = record {
  id = id;
  address = record { ip = 1; port = 7000 };
  priority = priority;
  started_at = 0;
  version = text "0.1.0";
}

-- The node `b`, which follows `c` in term 4.
abbrev pub node : Node
node = record {
  info = info (text "b") 5;
  state = follower;
  leader_id = some (text "c");
  term = 4;
  metrics = default_metrics;
  started_at = 0;
}

abbrev pub chief : Node
chief = record node { state = leader; leader_id = some (text "b") }
