-- ===== src/Commands/Node.antt =====
-- calicoctl/commands/node: the commands on the node that calicoctl runs on.
pub mod Host
pub mod Run
pub mod Docker
pub mod Checksystem
pub mod Status
pub mod Diags
