-- ===== src/Tests.antt =====
-- Witnesses and tests, at concrete inputs.
mod GuardTests
mod RiskTests
mod AccountTests
mod VenueTests
mod PlanTests
mod LedgerTests
mod PosterTests
mod CopyTests
mod TokenTests
mod EngineTests
