-- ===== src/Store.antt =====
-- src/katydid/store.py
pub mod Schema
pub mod Tables
pub mod Transaction
pub mod Leases
pub mod Success
pub mod Outcome
pub mod Machine
pub mod Control
pub mod Creation
pub mod Ingest
pub mod Supersede
pub mod Rows
pub mod Loops
pub mod Invariant
pub mod Touches
pub mod Claiming
pub mod Controlling
pub mod Recovering
pub mod Creating
pub mod Superseding
pub mod Replacing
pub mod Ingesting
pub mod History
pub mod Finality
pub mod Effects
pub mod Fencing
pub mod Working
pub mod Recording
pub mod Tests
pub mod Samples
