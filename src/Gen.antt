-- ===== src/Gen.antt =====
-- tracers-codegen/src/gen: code generation.
pub mod Rust
pub mod Common
pub mod NativeLib
pub mod NativeCode
pub mod Static
pub mod Dynamic
pub mod Generator
