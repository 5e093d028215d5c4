-- ===== src/Cluster.antt =====
-- crates/ironfish-cluster: one node's view of the cluster.
pub mod Node
pub mod Consensus
pub mod Membership
pub mod LoadBalancer
pub mod Gossip
pub mod Network
pub mod Discovery
pub mod Service
pub mod Examples
