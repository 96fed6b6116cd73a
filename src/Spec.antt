-- ===== src/Spec.antt =====
-- tracers-codegen/src/spec: the probes that a provider trait declares, and the calls of them.
pub mod Partial
pub mod ProbeArg
pub mod Probe
pub mod Provider
pub mod ProbeCall
