-- ===== src/Tracing.antt =====
-- tracers-codegen/src/lib.rs: the categories of tracing, their targets and the implementations.
pub mod TracingType
pub mod TracingTarget
pub mod TracingImplementation
