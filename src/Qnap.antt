-- ===== src/Qnap.antt =====
-- The package qnap: the client of the NAS's web interface.
pub mod Types
pub mod Client
pub mod Ledger
pub mod Contract
pub mod Session
pub mod Fill
pub mod Answer
pub mod Api
