-- ===== src/Std.antt =====
-- What the program uses of Rust's standard library.
pub mod FilePath
pub mod Environment
pub mod Disk
pub mod Exec
