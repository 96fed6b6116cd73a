-- ===== src/BuildRs/BuildInfo.antt =====
-- `BuildInfo` of tracers-codegen/src/build_rs.rs: the implementation that the build of `tracers`
-- chose, in a file that later build scripts and the proc macros read.
pub mod Handover
use tracers.Prelude.{
  String, ◌<>◌, Option, none, some, List, [], ◌∷◌, if◌then◌else◌, Result, ok, err, map_err, ◌>>=◌,
  str_eq,
}
use tracers.Std.FilePath.{FilePath, join, relative, parent}
use tracers.Std.FilePath.Parse.{from}
use tracers.Std.Environment.{Environment, var_with_context}
use tracers.Std.Disk.{Os, read_file, create, write, create_dir_all}
use tracers.Std.Exec
use tracers.Std.Exec.{World, Exec, pure, lift, on_disk}
use tracers.Error.{TracersError, TracersResult, Fallible, Failure}
use tracers.Error.Raise.{
  other_error, missing_call_in_build_rs, build_info_read_error, build_info_write_error,
}
use tracers.Tracing.TracingImplementation.{TracingImplementation}
use tracers.Cache.{Codec}

pub record BuildInfo : Type 0 where
  pub package_name : String
  pub implementation : TracingImplementation

abbrev pub new : String → TracingImplementation → BuildInfo
new package_name implementation = record {
  package_name = package_name;
  implementation = implementation;
}

-- `env::var(name).context(name)?`
abbrev pub var_or_error : Environment → String → TracersResult String
var_or_error env name = map_err other_error (var_with_context env name name)

-- Within the build of `tracers` itself
own_build_path : Environment → TracersResult FilePath
own_build_path env = do
  name ← var_or_error env "CARGO_PKG_NAME"
  version ← var_or_error env "CARGO_PKG_VERSION"
  out_dir ← var_or_error env "OUT_DIR"
  ok (join (from out_dir) (from (name <> "-" <> version <> "/buildinfo.json")))

-- `env::var(name).ok().unwrap_or_default()`
abbrev pub or_default : Option String → String
or_default (some s) = s
or_default none = ""

unfoldable pub get_build_path : Environment → TracersResult FilePath
unfolding own_build_path
get_build_path env =
    if str_eq "tracers" (or_default (env "CARGO_PKG_NAME"))
    then own_build_path env
    else elim (env "DEP_TRACERS_BUILD_INFO_PATH") [
      | some build_info_path ↦ ok (from build_info_path)
      | none ↦ elim (env "TRACERS_BUILD_INFO_PATH") [
        | some build_info_path ↦ ok (from build_info_path)
        | none ↦ err missing_call_in_build_rs
      ]
    ]

-- `path.parent().map(…).unwrap_or(Ok(()))`
create_parent : Os → FilePath → Option FilePath → Exec TracersError (Unit {0})
create_parent os path none = pure tt
create_parent os path (some p) =
    on_disk (build_info_write_error path) (λ disk. create_dir_all os disk p)

module _ (os : Os) (codec : Codec BuildInfo) where
  unfoldable pub read_build_info : FilePath → Exec TracersError BuildInfo
  read_build_info path w =
      lift (map_err (build_info_read_error path) (read_file os w.disk path >>= codec.decode)) w

  unfoldable pub load : Environment → Exec TracersError BuildInfo
  unfolding read_build_info
  load env = Exec.◌>>=◌ (lift (get_build_path env)) read_build_info

  write_build_info : BuildInfo → FilePath → Exec TracersError FilePath
  unfolding create_parent
  write_build_info info path = Exec.◌>>◌ (create_parent os path (parent path)) (
      Exec.◌>>◌ (on_disk (build_info_write_error path) (λ disk. create os disk path)) (
        Exec.◌>>◌
          (on_disk (build_info_write_error path) (λ disk. write os disk path (codec.encode info)))
          (pure path)))

  unfoldable pub save : Environment → BuildInfo → Exec TracersError FilePath
  unfolding write_build_info
  save env info = Exec.◌>>=◌ (lift (get_build_path env)) (write_build_info info)
