-- ===== src/Database.antt =====
-- The PostgreSQL side of crates/gateway/src/main.rs, by the files below: the tables that its statements
-- read and write, transactions, the incremental and the full synchronisation of the vault, and the
-- permits of downstream requests.
pub mod Tables
pub mod Columns
pub mod Transactions
pub mod Keys
pub mod Bearers
pub mod Delta
pub mod Permits
