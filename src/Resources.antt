-- ===== src/Resources.antt =====
-- calicoctl/commands/resources.go: a command on resources.
pub mod Convert
pub mod Arguments
pub mod Execute
