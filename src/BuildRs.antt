-- ===== src/BuildRs.antt =====
-- tracers-codegen/src/build_rs.rs: what runs in the build scripts of `tracers` and of its users.
pub mod Features
pub mod Select
pub mod BuildInfo
pub mod Build
