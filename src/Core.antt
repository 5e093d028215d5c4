-- ===== src/Core.antt =====
-- crates/ironfish-core: the types that every other part shares.
pub mod Error
pub mod Cluster
pub mod Token
pub mod Gossip
pub mod Chess
pub mod Analysis
mod Examples
