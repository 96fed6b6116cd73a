-- ===== src/Gen/Static.antt =====
-- tracers-codegen/src/gen/static: the code for static tracing and for disabled tracing.
pub mod Probe
pub mod ProviderTrait
pub mod ProbeCall
