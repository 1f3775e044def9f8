-- ===== src/Examples.antt =====
-- The theorems at concrete inputs: the driver on a NAS that holds its targets in a list.
pub mod Nas
pub mod Creation
pub mod Volumes
pub mod Values
pub mod Node
pub mod Start
pub mod Contract
pub mod Serving
pub mod Commands
pub mod Interleaved
pub mod Calls
pub mod Mounting
pub mod Pages
