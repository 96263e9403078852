-- ===== src/Ingress.antt =====
-- src/katydid/events.py and src/katydid/tasks.py: deliveries of GitHub become tasks.
pub mod Payload
pub mod Readers
pub mod Reconcile
pub mod Events
pub mod Dispatch
pub mod Current
pub mod Authority
pub mod Tests
