-- ===== src/Environment.antt =====
-- src/katydid/environment.py: the lifecycle of a test environment.
pub mod Session
pub mod Rules
pub mod Prepare
pub mod Cleanup
pub mod Disposal
pub mod Delay
pub mod Readiness
pub mod Probing
pub mod Prepared
pub mod Persisted
pub mod Tests
