-- ===== src/Driver/Node.antt =====
-- The node service of the driver: driver/node.go, driver/iscsi_iscsi.go and driver/iscsi_util.go.
pub mod Disk
pub mod Host
pub mod Attach
pub mod Publish
