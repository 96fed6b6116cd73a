-- ===== src/Tests/Building.antt =====
-- Instances for the build scripts and the module files.
use tracers.Prelude.{
  none, some, [], ◌∷◌, ok, err, ◌≡◌, ◌≢◌, ◌↔◌, refl, true, false, not, ◌&&◌, if◌then◌else◌, str_eq,
}
use tracers.Std.FilePath
use tracers.Std.FilePath.{FilePath}
use tracers.Std.Environment.{Environment, is_set}
use tracers.Std.Exec.{Outcome}
use tracers.Error.{TracersError}
use tracers.Tracing.TracingImplementation
use tracers.Tracing.TracingImplementation.{TracingImplementation, tracing_type, tracing_target}
use tracers.BuildRs.Features.{FeatureFlags, new, enable_tracing, enable_dynamic, enable_static}
use tracers.BuildRs.Select.{
  select_implementation, stap_variable, stap_unavailable, select_never_panics, select-kind,
  select-forced,
}
use tracers.BuildRs.BuildInfo.{BuildInfo, save}
use tracers.Cache.{Codec}
use tracers.Tests.Data.{healthy, empty_world, absolute, no_variables}

-- Dynamic tracing with SystemTap forced, and static tracing with LTTng forced
abbrev dynamic_flags : FeatureFlags
dynamic_flags = record {
  enable_dynamic_tracing = true;
  enable_static_tracing = false;
  force_dyn_stap = true;
  force_dyn_noop = false;
  force_static_stap = false;
  force_static_lttng = false;
  force_static_noop = false;
}

abbrev static_flags : FeatureFlags
static_flags = record {
  enable_dynamic_tracing = false;
  enable_static_tracing = true;
  force_dyn_stap = false;
  force_dyn_noop = false;
  force_static_stap = false;
  force_static_lttng = true;
  force_static_noop = false;
}

select_never_panics_example :
    (select_implementation no_variables dynamic_flags ≢ none)
    × ((e : TracersError)
        → (select_implementation no_variables dynamic_flags ≡ some (err e))
          ↔ ((true ≡ true) × (is_set no_variables stap_variable ≡ false) × (e ≡ stap_unavailable)))
select_never_panics_example = select_never_panics no_variables dynamic_flags

select-kind_example :
    (TracingImplementation.is_enabled TracingImplementation.static_lttng
      ≡ enable_tracing static_flags)
    × (TracingImplementation.is_dynamic TracingImplementation.static_lttng
        ≡ enable_dynamic static_flags)
    × (TracingImplementation.is_static TracingImplementation.static_lttng
        ≡ (enable_static static_flags && not (enable_dynamic static_flags)))
unfolding select_implementation
select-kind_example = select-kind no_variables static_flags refl

select-forced_example :
    (false ≡ true → TracingImplementation.static_lttng ≡ TracingImplementation.dynamic_stap)
    × (false ≡ true → TracingImplementation.static_lttng ≡ TracingImplementation.dynamic_no_op)
    × (enable_dynamic static_flags ≡ false
        → true ≡ true
        → (false ≡ true → TracingImplementation.static_lttng ≡ TracingImplementation.static_stap)
          × (true ≡ true
              → false ≡ false
              → TracingImplementation.static_lttng ≡ TracingImplementation.static_lttng)
          × (false ≡ true
              → TracingImplementation.static_lttng ≡ TracingImplementation.static_no_op))
unfolding select_implementation new
select-forced_example =
    select-forced no_variables false true false false false true false {features = static_flags}
      refl refl

abbrev info : BuildInfo
info = record { package_name = "tracers"; implementation = TracingImplementation.static_lttng }

-- A serialiser that knows one value
abbrev info_codec : Codec BuildInfo
info_codec = record { encode = λ i. 1 ∷ []; decode = λ bytes. ok info }

abbrev own_variables : Environment
own_variables name =
    if str_eq name "CARGO_PKG_NAME"
    then some "tracers"
    else if str_eq name "CARGO_PKG_VERSION"
    then some "0.1.0"
    else if str_eq name "OUT_DIR"
    then some "/out"
    else none

abbrev info_path : FilePath
info_path = absolute ("out" ∷ "tracers-0.1.0" ∷ "buildinfo.json" ∷ [])

abbrev users_variables : Environment
users_variables name =
    if str_eq name "CARGO_PKG_NAME"
    then some "app"
    else if str_eq name "DEP_TRACERS_BUILD_INFO_PATH"
    then some "/out/tracers-0.1.0/buildinfo.json"
    else none

abbrev after_save : Outcome TracersError FilePath
after_save = save healthy info_codec own_variables info empty_world
