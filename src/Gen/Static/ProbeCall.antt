-- ===== src/Gen/Static/ProbeCall.antt =====
-- tracers-codegen/src/gen/static/probe_call.rs: the code that a call of `probe!` becomes.
pub mod Declared
pub mod Resolves
use tracers.Prelude.{
  ℕ, suc, String, ◌<>◌, Bool, true, false, Option, none, some, List, [], ◌∷◌, ◌++◌, map,
  if◌then◌else◌,
}
use tracers.Prelude.Radix.{decimal}
use tracers.Tracing.TracingTarget
use tracers.Tracing.TracingTarget.{TracingTarget}
use tracers.Tracing.TracingImplementation
use tracers.BuildRs.BuildInfo.{BuildInfo}
use tracers.Spec.ProbeCall.{Punctuated, SynPath, Expr, ProbeCallDetails, pop, push_value, not_empty}
use tracers.Gen.Rust.{
  Tuple, CallCode, never, fire, FireCode, Condition, constant_false, unsafe_call, WrapStatement,
}
use tracers.Gen.Common.{generate_tuple, get_provider_impl_mod_name}
use tracers.Gen.Static.Probe.{Naming, target_of, wrapper_name}

-- `Punctuated::push`: a separator is put behind the last value where there is none.
unfoldable pub push : String → Punctuated → Punctuated
push v p = record { values = p.values ++ v ∷ []; trailing = false }

-- The path of the provider trait, with the trait replaced by its module. `none` is the panic of `expect`.
unfoldable pub module_path : Naming → SynPath → Option SynPath
unfolding push get_provider_impl_mod_name
module_path naming provider = elim (pop provider.segments) [
  | none ↦ none
  | some popped ↦ some (record provider {
    segments = push (get_provider_impl_mod_name naming.to_snake_case popped.0.0) popped.1;
  })
]

-- The variables that hold the wrapped arguments, from `index` on
unfoldable pub var_names : ℕ → List String → List String
unfolding decimal
var_names index [] = []
var_names index (arg ∷ args) = ("__tracer_arg" <> decimal index) ∷ var_names (suc index) args

unfoldable pub wrap_statement : SynPath → ProbeCallDetails → Option WrapStatement
unfolding var_names generate_tuple wrapper_name
wrap_statement mod_path details = elim details.args [
  | [] ↦ none
  | _ ∷ _ ↦ some (record {
    vars = generate_tuple (var_names 0 details.args);
    mod_path = mod_path;
    func = wrapper_name details.probe;
    args = details.args;
  })
]

unfoldable pub fire_code : Bool → SynPath → ProbeCallDetails → CallCode
unfolding wrap_statement var_names
fire_code real mod_path details = fire (record {
  condition = if real then unsafe_call mod_path (details.probe <> "_enabled") else constant_false;
  wrap = wrap_statement mod_path details;
  is_unsafe = real;
  mod_path = mod_path;
  func = details.probe;
  params = var_names 0 details.args;
})

abbrev pub in_module : Bool → ProbeCallDetails → Option SynPath → Option CallCode
in_module real details none = none
in_module real details (some mod_path) = some (fire_code real mod_path details)

-- `none` is a panic: the assertion, or a path with no segment.
unfoldable pub generate_probe_call : Naming → BuildInfo → ProbeCallDetails → Option CallCode
unfolding module_path fire_code TracingImplementation.is_dynamic
    TracingImplementation.tracing_target
generate_probe_call naming info details =
    if TracingImplementation.is_dynamic info.implementation then none else elim (target_of info) [
      | TracingTarget.disabled ↦ some (never details.call)
      | TracingTarget.no_op ↦ in_module false details (module_path naming details.provider)
      | _ ↦ in_module true details (module_path naming details.provider)
    ]
