-- ===== src/Guard.antt =====
-- The pre-sign checks of src/tiller/execution/guard.py: raw account layouts, mint rules, quote,
-- transaction and simulation checks.
pub mod Layout
pub mod Mint
pub mod Quote
pub mod Transaction
pub mod Simulation
