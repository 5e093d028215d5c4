-- ===== src/Cluster/Consensus.antt =====
-- crates/ironfish-cluster/src/consensus: raft, the bully election, and their combination.
pub mod Raft
pub mod Bully
pub mod Hybrid
pub mod History
pub mod Votes
pub mod Elections
pub mod Heartbeats
pub mod Races
