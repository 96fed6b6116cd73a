-- ===== src/Gen/NativeCode/Target.antt =====
-- tracers-codegen/src/gen/static/native_code/target: the generators of SystemTap and of LTTng. The
-- printing of a template (askama), the C++ compiler (the crate cc), `lttng-gen-tp` and `pkg-config` are
-- parameters. A printed template is what the template is given, and the printer makes its text.
pub mod Stap
pub mod Lttng
pub mod Bounds
pub mod Linked
use tracers.Prelude.{String, ◌<>◌, Bool, Option, none, some, List, [], ◌∷◌, if◌then◌else◌}
use tracers.Std.FilePath
use tracers.Std.FilePath.{FilePath, join, relative}
use tracers.Std.Disk.{Bytes, Disk, Os, create, write, create_dir_all}
use tracers.Std.Exec.{Exec, pure, print, on_disk, ◌>>=◌, ◌>>◌}
use tracers.Error.{TracersError, Failure}
use tracers.Error.Raise.{native_code_generation_error}
use tracers.Spec.ProbeArg.{ProbeArgSpecification}

-- `build_dir` and `output_dir` of the trait NativeCodeGenerator
unfoldable pub build_dir : FilePath → FilePath
build_dir out_dir = join out_dir (relative ("build" ∷ []))

unfoldable pub output_dir : FilePath → FilePath
output_dir out_dir = join out_dir (relative ("output" ∷ []))

-- What `cc::Build` is told
pub record CcBuild : Type 0 where
  pub out_dir : FilePath
  pub files : List FilePath
  pub includes : List FilePath
  pub defines : List (String × Option String)

-- `debug_assertions` says how tracers-codegen itself was built; `try_compile` takes the name of the
-- library, and may fail and change the disk.
pub record Machine : Type 0 where
  pub os : Os
  pub debug_assertions : Bool
  pub try_compile : CcBuild → String → Disk → Option Failure × Disk

-- A parameter of a C function: its type and its name.
abbrev pub c_param : ProbeArgSpecification → String × String
c_param arg = (arg.arg_type_info.c_type_str, arg.name)

abbrev pub native_error : String → Failure → TracersError
native_error message e = native_code_generation_error message e

module _ (machine : Machine) where
  unfoldable pub make_directory : String → FilePath → Exec TracersError (Unit {0})
  unfolding native_code_generation_error
  make_directory message dir =
      on_disk (native_error message) (λ disk. create_dir_all machine.os disk dir)

  -- Creates the file, shows the text in a debug build, and writes it.
  unfoldable pub write_code :
      String → String → String → FilePath → String → Bytes → Exec TracersError (Unit {0})
  unfolding native_code_generation_error FilePath.display
  write_code creating generated writing path text bytes = do
    on_disk (native_error (creating <> FilePath.display path)) (λ disk. create machine.os disk path)
    (if machine.debug_assertions then print (generated <> text) else pure tt)
    on_disk (native_error writing) (λ disk. write machine.os disk path bytes)

  unfoldable pub compile : CcBuild → String → Exec TracersError (Unit {0})
  unfolding native_code_generation_error
  compile build lib_name =
      on_disk (native_error "Compiling native wrapper library") (machine.try_compile build lib_name)
