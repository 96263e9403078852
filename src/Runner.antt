-- ===== src/Runner.antt =====
-- `run_plan` of src/katydid/runner.py: the run of a plan, with its environment and its gate.
pub mod Run
pub mod Accepted
pub mod Tests
