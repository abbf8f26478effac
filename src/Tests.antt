-- ===== src/Tests.antt =====
-- Runs of the modelled code on concrete data.
pub mod Data
pub mod Protocol
pub mod Helper
pub mod Session
pub mod Transaction
pub mod Entries
