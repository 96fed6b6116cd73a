-- ===== src/BuildRs/Features.antt =====
-- `FeatureFlags` of tracers-codegen/src/build_rs.rs.
use Prim.Native.Char.{Char, code}
use tracers.Prelude.{
  String, ◌<>◌, Bool, true, false, ◌&&◌, ◌||◌, ◌-◌, leb, ◌==◌, if◌then◌else◌, ok, err,
}
use tracers.Prelude.Radix.{pick}
use tracers.Std.Environment.{Environment, is_set}
use tracers.Error.{TracersResult}
use tracers.Error.Raise.{code_generation_error}

pub record FeatureFlags : Type 0 where
  pub enable_dynamic_tracing : Bool
  pub enable_static_tracing : Bool
  pub force_dyn_stap : Bool
  pub force_dyn_noop : Bool
  pub force_static_stap : Bool
  pub force_static_lttng : Bool
  pub force_static_noop : Bool

-- `to_uppercase().replace("-", "_")`, on the ASCII names of features.
upper_char : Char → Char
unfolding pick
upper_char c =
    if leb 97 (code c) && leb (code c) 122
    then pick (code c - 97) "ABCDEFGHIJKLMNOPQRSTUVWXYZ"
    else if code c == 45
    then "_"
    else c

upper_name : String → String
unfolding upper_char
upper_name String.[] = String.[]
upper_name (String.◌∷◌ c s) = String.◌∷◌ (upper_char c) (upper_name s)

unfoldable pub is_feature_enabled : Environment → String → Bool
unfolding upper_name
is_feature_enabled env name = is_set env ("CARGO_FEATURE_" <> upper_name name)

-- The arguments, in the order of the fields.
unfoldable pub new : Bool → Bool → Bool → Bool → Bool → Bool → Bool → TracersResult FeatureFlags
new dynamic static dyn_stap dyn_noop static_stap static_lttng static_noop =
    if dynamic && static
    then err (
        code_generation_error
          "The features `dynamic-tracing` and `static-tracing` are mutually exclusive; please choose one")
    else if dyn_stap && dyn_noop
    then err (
        code_generation_error
          "The features `force-dyn-stap` and `force_dyn_noop` are mutually exclusive; please choose one")
    else if static_stap && static_noop
    then err (
        code_generation_error
          "The features `force-static-stap` and `force_static_noop` are mutually exclusive; please choose one")
    else if static_lttng && static_noop
    then err (
        code_generation_error
          "The features `force-static-lttng` and `force_static_noop` are mutually exclusive; please choose one")
    else ok (record {
      enable_dynamic_tracing = dynamic;
      enable_static_tracing = static;
      force_dyn_stap = dyn_stap;
      force_dyn_noop = dyn_noop;
      force_static_stap = static_stap;
      force_static_lttng = static_lttng;
      force_static_noop = static_noop;
    })

unfoldable pub from_env : Environment → TracersResult FeatureFlags
unfolding is_feature_enabled new
from_env env =
    new (is_feature_enabled env "dynamic-tracing") (is_feature_enabled env "static-tracing")
      (is_feature_enabled env "force-dyn-stap") (is_feature_enabled env "force-dyn-noop")
      (is_feature_enabled env "force-static-stap") (is_feature_enabled env "force-static-lttng")
      (is_feature_enabled env "force-static-noop")

unfoldable pub enable_dynamic : FeatureFlags → Bool
enable_dynamic f = f.enable_dynamic_tracing || f.force_dyn_noop || f.force_dyn_stap

unfoldable pub enable_static : FeatureFlags → Bool
enable_static f = f.enable_static_tracing

unfoldable pub enable_tracing : FeatureFlags → Bool
unfolding enable_dynamic enable_static
enable_tracing f = enable_dynamic f || enable_static f

show_bool : Bool → String
show_bool true = "true"
show_bool false = "false"

-- `{:?}`, as `derive(Debug)` prints it
unfoldable pub debug : FeatureFlags → String
unfolding show_bool
debug f =
    "FeatureFlags { enable_dynamic_tracing: "
    <> show_bool f.enable_dynamic_tracing
    <> ", enable_static_tracing: "
    <> show_bool f.enable_static_tracing
    <> ", force_dyn_stap: "
    <> show_bool f.force_dyn_stap
    <> ", force_dyn_noop: "
    <> show_bool f.force_dyn_noop
    <> ", force_static_stap: "
    <> show_bool f.force_static_stap
    <> ", force_static_lttng: "
    <> show_bool f.force_static_lttng
    <> ", force_static_noop: "
    <> show_bool f.force_static_noop
    <> " }"
