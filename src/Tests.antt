-- ===== src/Tests.antt =====
-- Runs of the modelled code at small inputs, and instances of the theorems.
pub mod Data
pub mod Caching
pub mod Building
pub mod Arguments
pub mod Providers
pub mod Generated
pub mod Runtime
