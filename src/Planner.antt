-- ===== src/Planner.antt =====
-- src/pymod/planner.py: a batch of items as Modbus requests, and their results.
pub mod Runs
pub mod Ranges
pub mod Read
pub mod Write
