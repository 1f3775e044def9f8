-- ===== src/Driver.antt =====
-- The package driver: the CSI services.
pub mod Handler
pub mod Capabilities
pub mod Config
pub mod Create
pub mod Delete
pub mod Volumes
pub mod Node
pub mod Token
pub mod Listing
pub mod Identity
pub mod Server
pub mod Calls
