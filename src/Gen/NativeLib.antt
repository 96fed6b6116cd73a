-- ===== src/Gen/NativeLib.antt =====
-- `NativeLib` of tracers-codegen/src/gen/mod.rs.
use tracers.Prelude.{String}
use tracers.Std.FilePath.{FilePath}

pub data NativeLib : Type 0 where
  static_wrapper_lib : String → NativeLib
  static_wrapper_lib_path : FilePath → NativeLib
  dynamic_support_lib : String → NativeLib
  static_support_lib : String → NativeLib
  support_lib_path : FilePath → NativeLib
