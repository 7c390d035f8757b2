-- ===== src/Tests.antt =====
-- Runs of the contract on concrete inputs: the states that they reach, and the theorems at them.
pub mod Scenario
pub mod Runs
pub mod Stored
pub mod Rules
pub mod Listed
pub mod Payments
pub mod Witnesses
