-- ===== src/Auth.antt =====
-- crates/ironfish-auth: tokens, the store that keeps them, and the layer that checks them.
pub mod Store
pub mod Token
pub mod Middleware
pub mod Examples
