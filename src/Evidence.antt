-- ===== src/Evidence.antt =====
-- src/katydid/evidence.py: the results of planned checks and the gate over them.
pub mod Results
pub mod Gate
pub mod Accepting
pub mod Soundness
pub mod Tests
