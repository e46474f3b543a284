-- ===== src/Commands/Ends.antt =====
-- calicoctl: how the commands and main end.
pub mod Resources
pub mod Config
pub mod Ipam
pub mod Node
pub mod Checksystem
pub mod Diags
pub mod Status
pub mod Get
pub mod Commands
pub mod Main
