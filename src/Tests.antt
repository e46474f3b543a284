-- ===== src/Tests.antt =====
-- Concrete parameters, and each property at concrete arguments.
mod Sample
mod Environment
mod Resources
mod Manager
mod Commands
mod Node
mod Promises
mod Usage
mod Again
