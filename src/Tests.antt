-- ===== src/Tests.antt =====
-- Runs of the modelled code on concrete data, and each theorem at a concrete input.
pub mod Fixtures
mod Routing
mod Keys
mod Bearers
mod Storage
mod Gateway
pub mod Stores
mod Proxy
mod Pages
