-- ===== src/Cmd.antt =====
-- The commands: cmd/iscsiadm, cmd/qnap-csi-plugin and cmd/qnap-csi-test.
pub mod Iscsiadm
pub mod Plugin
pub mod Test
