-- ===== src/Intent.antt =====
-- internal/intent: the cluster.yaml schema, its defaults and its validation.
pub mod Schema
pub mod Pattern
pub mod Resolve
pub mod Address
pub mod Ai
pub mod Defaults
pub mod Check
pub mod Names
pub mod Validate
