-- ===== src/Api.antt =====
-- crates/ironfish-api: the APIs and the WebSocket sessions.
pub mod Session
pub mod State
pub mod Rest
pub mod GraphQl
pub mod Grpc
pub mod Socket
pub mod Router
pub mod Agreement
pub mod Manager
pub mod Examples
