-- ===== src/BuildRs/Select.antt =====
-- `select_implementation` of tracers-codegen/src/build_rs.rs.
use tracers.Prelude.{
  String, Bool, true, false, not, ◌&&◌, Option, none, some, if◌then◌else◌, ok, err, ◌≡◌, refl, ap,
  ◌↔◌, ◌≢◌, arith, ◌∙◌,
}
use tracers.Tracing.TracingImplementation
use tracers.Tracing.TracingImplementation.{TracingImplementation}
use tracers.Std.Environment.{Environment, is_set}
use tracers.Error.{TracersError, TracersResult}
use tracers.Error.Raise.{code_generation_error}
use tracers.BuildRs.Features.{FeatureFlags, new, enable_tracing, enable_dynamic, enable_static}

abbrev pub stap_variable : String
stap_variable = "DEP_TRACERS_DYN_STAP_SUCCEEDED"

abbrev pub stap_unavailable : TracersError
stap_unavailable =
    code_generation_error "force-dyn-stap is enabled but the dyn_stap library is not available"

-- `none` is the panic of `assert!(features.enable_static())`.
unfoldable pub select_implementation :
    Environment → FeatureFlags → Option (TracersResult TracingImplementation)
unfolding enable_tracing
select_implementation env features =
    if not (enable_tracing features)
    then some (ok TracingImplementation.disabled)
    else if enable_dynamic features
    then (if features.force_dyn_stap
        then (if not (is_set env stap_variable)
            then some (err stap_unavailable)
            else some (ok TracingImplementation.dynamic_stap))
        else if features.force_dyn_noop
        then some (ok TracingImplementation.dynamic_no_op)
        else if is_set env stap_variable
        then some (ok TracingImplementation.dynamic_stap)
        else some (ok TracingImplementation.dynamic_no_op))
    else if not (enable_static features)
    then none
    else if features.force_static_stap
    then some (ok TracingImplementation.static_stap)
    else if features.force_static_lttng
    then some (ok TracingImplementation.static_lttng)
    else some (ok TracingImplementation.static_no_op)

-- The selection never panics, and fails exactly when the dynamic SystemTap library is forced and
-- was not built.
pub select_never_panics :
    (env : Environment) (features : FeatureFlags)
    → (select_implementation env features ≢ none)
      × ((e : TracersError)
          → (select_implementation env features ≡ some (err e)) ↔ (
              (features.force_dyn_stap ≡ true)
              × (is_set env stap_variable ≡ false)
              × (e ≡ stap_unavailable)))
unfolding select_implementation
select_never_panics env features =
    (ground arith, λ e. (λ h. ground arith, λ (forced, missing, same). ground arith))

-- Enabled, dynamic and static.
kinds : TracingImplementation → Bool × Bool × Bool
kinds i = (
  TracingImplementation.is_enabled i,
  TracingImplementation.is_dynamic i,
  TracingImplementation.is_static i,
)

-- What `kinds` is, for each implementation.
kind_table : TracingImplementation → Bool × Bool × Bool
kind_table TracingImplementation.disabled = (false, false, false)
kind_table TracingImplementation.static_stap = (true, false, true)
kind_table TracingImplementation.static_lttng = (true, false, true)
kind_table TracingImplementation.static_no_op = (true, false, true)
kind_table TracingImplementation.dynamic_stap = (true, true, false)
kind_table TracingImplementation.dynamic_no_op = (true, true, false)

kinds-eq-table : (i : TracingImplementation) → kinds i ≡ kind_table i
unfolding kinds kind_table TracingImplementation.is_enabled TracingImplementation.is_dynamic
    TracingImplementation.is_static
kinds-eq-table TracingImplementation.disabled = refl
kinds-eq-table TracingImplementation.static_stap = refl
kinds-eq-table _ = refl

select-kind_table :
    (env : Environment) (features : FeatureFlags) (i : TracingImplementation)
    → select_implementation env features ≡ some (ok i)
    → kind_table i ≡ (
      enable_tracing features,
      enable_dynamic features,
      enable_static features && not (enable_dynamic features),
    )
unfolding select_implementation kind_table
select-kind_table env features i h = ground arith

-- What is selected is of the kind that the features ask for: it is enabled exactly when some
-- tracing is, dynamic exactly when dynamic tracing is, and static when only static tracing is.
pub select-kind :
    (env : Environment) (features : FeatureFlags) {i : TracingImplementation}
    → select_implementation env features ≡ some (ok i)
    → (TracingImplementation.is_enabled i ≡ enable_tracing features)
      × (TracingImplementation.is_dynamic i ≡ enable_dynamic features)
      × (TracingImplementation.is_static i
          ≡ (enable_static features && not (enable_dynamic features)))
unfolding kinds
select-kind env features {i} h =
    let same = kinds-eq-table i ∙ select-kind_table env features i h in
    (
      ap (λ (k : Bool × Bool × Bool). k.0) same,
      ap (λ (k : Bool × Bool × Bool). k.1) same,
      ap (λ (k : Bool × Bool × Bool). k.2) same,
    )

new-eq-ok :
    (a b c d e f g : Bool) {features : FeatureFlags}
    → new a b c d e f g ≡ ok features
    → (features ≡ record {
      enable_dynamic_tracing = a;
      enable_static_tracing = b;
      force_dyn_stap = c;
      force_dyn_noop = d;
      force_static_stap = e;
      force_static_lttng = f;
      force_static_noop = g;
    })
      × ((c && d) ≡ false)
      × ((e && g) ≡ false)
      × ((f && g) ≡ false)
unfolding new
new-eq-ok a b c d e f g h = ground arith

-- With flags that `FeatureFlags::new` accepts, an implementation that is forced is the one selected:
-- among the dynamic ones always, among the static ones where static tracing alone is enabled and
-- with SystemTap before LTTng.
pub select-forced :
    (env : Environment) (a b c d e f g : Bool) {features : FeatureFlags} {i : TracingImplementation}
    → new a b c d e f g ≡ ok features
    → select_implementation env features ≡ some (ok i)
    → (c ≡ true → i ≡ TracingImplementation.dynamic_stap)
      × (d ≡ true → i ≡ TracingImplementation.dynamic_no_op)
      × (enable_dynamic features ≡ false
          → b ≡ true
          → (e ≡ true → i ≡ TracingImplementation.static_stap)
            × (f ≡ true → e ≡ false → i ≡ TracingImplementation.static_lttng)
            × (g ≡ true → i ≡ TracingImplementation.static_no_op))
unfolding select_implementation
select-forced env a b c d e f g {features} {i} made h =
    let (fields, dyn, stap, lttng) = new-eq-ok a b c d e f g made in
    let chosen = rw fields at h in rw fields (ground arith)
