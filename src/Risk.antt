-- ===== src/Risk.antt =====
-- src/tiller/risk/engine.py: pure risk decisions.
pub mod Directive
pub mod Limits
pub mod Canary
pub mod Brakes
pub mod Entry
pub mod Sizing
