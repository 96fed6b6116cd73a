-- ===== src/Syn.antt =====
-- Rust's parse trees as far as the code of tracers-codegen looks into them, and syn_helpers.rs.
pub mod Types
pub mod Transform
pub mod Relabel
pub mod Equality
pub mod Visited
pub mod Erase
