-- ===== src/Controller.antt =====
-- src/katydid/controller.py: the orchestration of testing, repair, delivery and release.
pub mod Setting
pub mod Steps
pub mod Releasing
pub mod Repairing
pub mod Delivering
pub mod Execute
pub mod Guards
pub mod Steady
pub mod Steadiness
pub mod Deploying
pub mod Released
pub mod Reviewing
pub mod Delivered
pub mod Executed
pub mod Observing
pub mod Settling
pub mod Queue
pub mod Tests
