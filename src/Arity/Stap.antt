-- ===== src/Arity/Stap.antt =====
-- tracers-dyn-stap/build.rs: the methods that fire a probe of libstapsdt. Rust texts are ASCII.
use Prim.Native.Char.{code}
use tracers.Prelude.{
  ℕ, zero, suc, String, ◌<>◌, Bool, none, some, List, [], ◌∷◌, ◌++◌, length, ltb, ◌||◌,
  if◌then◌else◌,
}
use tracers.Prelude.Radix.{decimal}
use tracers.Std.FilePath.{join as join_path, relative}
use tracers.Std.FilePath.Parse.{from}
use tracers.Std.Disk.{Bytes, Os, create, write}
use tracers.Std.Environment.{Environment, is_set}
use tracers.Std.Exec.{Outcome, returns, fails, panics, Exec, fail, print, on_disk, ◌>>◌}
use tracers.Error.{Failure, join, format_err, failure_text}
use tracers.Arity.{
  max_arity, get_type_param_names, xform_types_i, where_clause, typed_args, for_arities,
}

abbrev pub stap_max_arity : ℕ
stap_max_arity = 6

-- `split_off`: what stays, and what is split off.
unfoldable pub split_off : ℕ → List String → List String × List String
split_off zero xs = ([], xs)
split_off (suc n) [] = ([], [])
split_off (suc n) (x ∷ xs) = let rest = split_off n xs in (x ∷ rest.0, rest.1)

unfoldable pub stap_arg_count : ℕ → ℕ
stap_arg_count arity = if ltb stap_max_arity arity then stap_max_arity else arity

-- The type parameters whose arguments are passed on, and those that are ignored
unfoldable pub stap_type_params : ℕ → List String × List String
unfolding split_off stap_arg_count get_type_param_names
stap_type_params arity = split_off (stap_arg_count arity) (get_type_param_names arity)

unfoldable pub all_args : ℕ → List String
unfolding stap_type_params typed_args
all_args arity =
    typed_args "arg" (stap_type_params arity).0 ++ typed_args "_arg" (stap_type_params arity).1

unfoldable pub stap_arg_names : ℕ → List String
unfolding stap_type_params xform_types_i decimal
stap_arg_names arity = xform_types_i (stap_type_params arity).0 (λ i x. "arg" <> decimal i)

-- The method `c_fire` of an arity
unfoldable pub stap_method : ℕ → String
unfolding get_type_param_names all_args stap_arg_names where_clause decimal
stap_method arity =
    let type_params = get_type_param_names arity in
    "\n            #[allow(clippy::duplicate_underscore_argument)]\n            unsafe fn c_fire"
    <> decimal (length type_params)
    <> "<"
    <> join "," type_params
    <> ">(&self, "
    <> join "," (all_args arity)
    <> ")\n                where "
    <> where_clause "ProbeArgNativeType" type_params
    <> " {\n                  probeFire(self.probe, "
    <> join "," (stap_arg_names arity)
    <> ");\n                }\n            "

unfoldable pub generate_stap_native_impl : String
unfolding for_arities stap_method
generate_stap_native_impl =
    "\n        /// Implementation of `UnsafeProviderProbeNativeImpl` for SystemTap.\n        ///\n        /// NB: While the `tracers` API supports probes with from 0 to 12 arguments, the libstapsdt library (or maybe SystemTap itself)\n        /// support up to 6.  This implementation must provide all arities from 0 to 12, but only the first 6 parameters are used.\n        impl UnsafeProviderProbeNativeImpl for StapProbe\n        {\n            fn is_enabled(&self) -> bool { StapProbe::is_enabled(self) }\n\n            unsafe fn c_fire0(&self) {\n                probeFire(self.probe);\n            }\n\n    "
    <> for_arities stap_method 1 max_arity
    <> "}\n"

unfoldable pub is_required : Environment → Bool
is_required env = is_set env "CARGO_FEATURE_REQUIRED"

unfoldable pub is_enabled : Environment → Bool
unfolding is_required
is_enabled env = is_set env "CARGO_FEATURE_ENABLED" || is_required env

-- `as_bytes`, of ASCII text
unfoldable pub as_bytes : String → Bytes
as_bytes String.[] = []
as_bytes (String.◌∷◌ c s) = code c ∷ as_bytes s

module _ (os : Os) (env : Environment) where
  unfoldable pub write_out : String → String → String → Exec Failure (Unit {0})
  unfolding as_bytes from create write
  write_out out_dir name text = do
    let dest_path = join_path (from out_dir) (relative (name ∷ []))
    on_disk (λ e. e) (λ disk. create os disk dest_path)
    on_disk (λ e. e) (λ disk. write os disk dest_path (as_bytes text))

  unfoldable pub try_build : Exec Failure (Unit {0})
  unfolding write_out generate_stap_native_impl
  try_build =
      if is_set env "DEP_STAPSDT_SUCCEEDED"
      then (elim (env "OUT_DIR") [
        | none ↦ fail (format_err "environment variable not found")
        | some out_dir ↦ write_out out_dir "probe_unsafe_impl.rs" generate_stap_native_impl
      ])
      else fail (
          format_err
            "tracers-dyn-stap is not available because libstapsdt-sys did not build successfully")

  unfoldable pub report_build : Outcome Failure (Unit {0}) → Outcome String (Unit {0})
  unfolding is_required
  report_build (returns _ w) = (do print "cargo:rustc-cfg=enabled"; print "cargo:succeeded=1") w
  report_build (panics m w) = panics m w
  report_build (fails e w) =
      if is_required env
      then panics ("tracers-dyn-stap build failed: " <> failure_text e) w
      else (do
        print ("cargo:warning=tracers-dyn-stap build failed: " <> failure_text e)
        print "cargo:warning=the tracers-dyn-stap bindings will not be included in the crate")
          w

  unfoldable pub main : Exec String (Unit {0})
  unfolding is_enabled try_build report_build
  main = do
    print "building tracers-dyn-stap if enabled"
    (if is_enabled env
        then (λ w. report_build (try_build w))
        else print "tracers-dyn-stap is not enabled; build skipped")
