-- ===== src/Agent.antt =====
-- agent/: what the agent writes into unit and environment files, and how it runs the units.
pub mod Env
pub mod Escape
pub mod EnvFile
pub mod Keys
pub mod Systemd
pub mod Units
pub mod Actions
pub mod Command
pub mod Artifact
pub mod Running
pub mod Reconcile
pub mod StateFile
pub mod Poll
pub mod Run
pub mod Oci
pub mod Tests
