-- ===== src/Updater.antt =====
-- The wallet's records against the chain (libwallet/src/internal/updater.rs): queries, the refresh
-- from a node, cancellation and the summary of the balance.
pub mod Query
pub mod Filter
pub mod Coinbase
pub mod Cancel
pub mod Refresh
pub mod Info
