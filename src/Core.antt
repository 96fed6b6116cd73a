-- ===== src/Core.antt =====
-- tracers-core/src/argtypes: how a Rust value becomes the C value that a probe passes on.
pub mod CType
pub mod ArgType
pub mod Conversion
pub mod Meaning
