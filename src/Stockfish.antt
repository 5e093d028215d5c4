-- ===== src/Stockfish.antt =====
-- crates/ironfish-stockfish: the engine processes, their protocol and the analyses they run.
pub mod Uci
pub mod Pool
pub mod Analysis
pub mod Streaming
pub mod Service
pub mod Engine
pub mod Examples
