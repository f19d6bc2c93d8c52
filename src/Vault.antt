-- ===== src/Vault.antt =====
-- The credential vault of crates/core/src/lib.rs, by the files below.
pub mod State
pub mod Shapes
pub mod Scopes
pub mod Custody
pub mod Keys
pub mod Downstream
pub mod Opening
pub mod Calls
