-- ===== src/Server.antt =====
-- crates/ironfish-server: the configuration of the process and how it wires the parts together.
pub mod Config
pub mod App
mod Examples
