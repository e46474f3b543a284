-- ===== src/Commands.antt =====
-- calicoctl/commands: the commands that calicoctl dispatches to.
pub mod Usage
pub mod Manage
pub mod Config
pub mod Node
pub mod Get
pub mod Ipam
pub mod Dispatch
pub mod Ends
