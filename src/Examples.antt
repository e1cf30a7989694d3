-- ===== src/Examples.antt =====
-- Concrete runs: the theorems applied where their hypotheses hold.
pub mod Trees
mod Logs
pub mod Batches
pub mod Keys
mod Services
mod Tiers
pub mod Flow
pub mod Calls
pub mod Server
mod Started
mod Daemon
mod Programs
pub mod Details
pub mod Tables
mod Visits
mod Orders
