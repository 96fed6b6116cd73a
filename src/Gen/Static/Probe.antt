-- ===== src/Gen/Static/Probe.antt =====
-- `ProbeGenerator` of tracers-codegen/src/gen/static/provider_trait.rs: what is generated for a probe.
-- `to_uppercase` of Rust's strings and heck's `to_snake_case` are parameters; the type of a native
-- argument is the text that `syn` parses.
use tracers.Prelude.{
  String, ◌<>◌, Bool, true, false, Option, none, some, List, [], ◌∷◌, map, if◌then◌else◌,
}
use tracers.Tracing.TracingTarget
use tracers.Tracing.TracingTarget.{TracingTarget}
use tracers.Tracing.TracingImplementation
use tracers.BuildRs.BuildInfo.{BuildInfo}
use tracers.Spec.ProbeArg.{ProbeArgSpecification}
use tracers.Spec.Probe.{ProbeSpecification}
use tracers.Spec.Provider.{ProviderSpecification, name_with_hash}
use tracers.Gen.Rust.{
  MethodBody, discard, forward, TraitMethod, NativeFunc, NativeEnabled, semaphore, enabled_func,
  RustEnabled, WrapperFunc,
}
use tracers.Gen.Common.{
  generate_probe_deprecation_attribute, generate_probe_doc_comment, args_lifetime_parameters,
  generate_tuple, get_provider_impl_mod_name,
}

pub record Naming : Type 0 where
  pub to_snake_case : String → String
  pub to_uppercase : String → String

abbrev pub target_of : BuildInfo → TracingTarget
target_of info = TracingImplementation.tracing_target info.implementation

abbrev pub arg_names : ProbeSpecification → List String
arg_names probe = map (λ (arg : ProbeArgSpecification). arg.ident) probe.args

module _ (naming : Naming) (info : BuildInfo) (spec : ProviderSpecification) where
  abbrev is_real : Bool
  is_real = TracingTarget.is_enabled (target_of info)

  unfoldable pub generate_probe_method_body : ProbeSpecification → MethodBody
  unfolding get_provider_impl_mod_name TracingImplementation.tracing_target
  generate_probe_method_body probe = elim (target_of info) [
    | TracingTarget.disabled ↦ discard (arg_names probe)
    | TracingTarget.no_op ↦
        forward (arg_names probe) false
          (get_provider_impl_mod_name naming.to_snake_case spec.item_trait.ident) probe.method_name
    | _ ↦
        forward (arg_names probe) true
          (get_provider_impl_mod_name naming.to_snake_case spec.item_trait.ident) probe.method_name
  ]

  unfoldable pub generate_trait_methods : ProbeSpecification → TraitMethod
  unfolding generate_probe_method_body generate_probe_doc_comment
      generate_probe_deprecation_attribute TracingImplementation.is_enabled
  generate_trait_methods probe = record {
    doc = generate_probe_doc_comment spec probe;
    deprecated = generate_probe_deprecation_attribute spec probe;
    allow_dead_code = TracingImplementation.is_enabled info.implementation;
    vis = probe.vis;
    sig = probe.original_method;
    body = generate_probe_method_body probe;
  }

  unfoldable pub native_func_name : ProbeSpecification → String
  unfolding name_with_hash
  native_func_name probe = name_with_hash spec <> "_" <> probe.name

  unfoldable pub generate_native_probe_func : ProbeSpecification → NativeFunc
  unfolding native_func_name TracingImplementation.tracing_target
  generate_native_probe_func probe = record {
    link_name = if is_real then some (native_func_name probe) else none;
    name = probe.method_name;
    args =
        map (λ (arg : ProbeArgSpecification). (arg.ident, arg.arg_type_info.rust_type_str))
          probe.args;
    body = if is_real then none else some (arg_names probe);
  }

  unfoldable pub semaphore_name : ProbeSpecification → String
  semaphore_name probe = naming.to_uppercase (probe.name <> "_semaphore")

  unfoldable pub generate_native_is_enabled : ProbeSpecification → NativeEnabled
  unfolding semaphore_name TracingImplementation.tracing_target
  generate_native_is_enabled probe = elim (target_of info) [
    | TracingTarget.lttng ↦
        enabled_func (spec.name <> "_" <> probe.name <> "_enabled") (probe.name <> "_enabled")
    | _ ↦
        semaphore (if is_real then some (spec.name <> "_" <> probe.name <> "_semaphore") else none)
          (semaphore_name probe)
  ]

  unfoldable pub generate_native_declaration : ProbeSpecification → NativeFunc × NativeEnabled
  unfolding generate_native_probe_func generate_native_is_enabled
  generate_native_declaration probe =
      (generate_native_probe_func probe, generate_native_is_enabled probe)

  unfoldable pub generate_rust_is_enabled : ProbeSpecification → Option RustEnabled
  unfolding semaphore_name TracingImplementation.tracing_target
  generate_rust_is_enabled probe =
      if TracingTarget.has_native_enabled_func (target_of info)
      then none
      else some (record { name = probe.name <> "_enabled"; semaphore = semaphore_name probe })

unfoldable pub wrapper_name : String → String
wrapper_name probe = "__" <> probe <> "_wrap"

-- The outer `none` is a panic.
unfoldable pub wrapper_for : String → List ProbeArgSpecification → Option (Option WrapperFunc)
unfolding args_lifetime_parameters generate_tuple wrapper_name
wrapper_for probe [] = some none
wrapper_for probe (first ∷ rest) = elim (args_lifetime_parameters (first ∷ rest)) [
  | none ↦ none
  | some lifetimes ↦ some (
      some (record {
        name = wrapper_name probe;
        lifetimes = lifetimes;
        args =
            map (λ (arg : ProbeArgSpecification). (arg.ident, arg.syn_typ_with_lifetimes))
              (first ∷ rest);
        returns =
            generate_tuple
              (map (λ (arg : ProbeArgSpecification). arg.syn_typ_with_lifetimes) (first ∷ rest));
        wraps = generate_tuple (map (λ (arg : ProbeArgSpecification). arg.ident) (first ∷ rest));
      }))
]

unfoldable pub generate_wrapper_func : ProbeSpecification → Option (Option WrapperFunc)
unfolding wrapper_for
generate_wrapper_func probe = wrapper_for probe.name probe.args
