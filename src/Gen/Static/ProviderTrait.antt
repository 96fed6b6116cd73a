-- ===== src/Gen/Static/ProviderTrait.antt =====
-- `ProviderTraitGenerator` of tracers-codegen/src/gen/static/provider_trait.rs: the struct and the
-- module that a provider trait becomes. The version is that of tracers-codegen.
pub mod Links
pub mod Fallback
use tracers.Prelude.{
  String, ◌<>◌, Bool, true, false, Option, none, some, List, [], ◌∷◌, map, if◌then◌else◌,
}
use tracers.Std.Environment.{Environment}
use tracers.Std.Exec.{World, Outcome, returns, fails, panics}
use tracers.Tracing.TracingType
use tracers.Tracing.TracingTarget
use tracers.Tracing.TracingTarget.{TracingTarget}
use tracers.Tracing.TracingImplementation
use tracers.Error.{TracersError}
use tracers.BuildRs.BuildInfo.{BuildInfo}
use tracers.Spec.Probe.{ProbeSpecification}
use tracers.Spec.Provider.{ProviderSpecification, separate_probes}
use tracers.Gen.NativeLib.{NativeLib, static_wrapper_lib}
use tracers.Gen.NativeCode.{Tools, ProcessedProviderTrait, get_processed_provider_info}
use tracers.Gen.Rust.{TracerStruct, WrapperFunc, ModContents, ImplMod, no_mod, dummy, extern_c}
use tracers.Gen.Common.{generate_trait_comment, get_provider_impl_mod_name}
use tracers.Gen.Static.Probe.{
  Naming, target_of, generate_trait_methods, generate_native_declaration, generate_rust_is_enabled,
  generate_wrapper_func,
}

pub record ProviderTraitGenerator : Type 0 where
  pub build_info : BuildInfo
  pub spec : ProviderSpecification
  pub processed_provider : Option ProcessedProviderTrait
  pub probes : List ProbeSpecification

abbrev pub generator_of :
    BuildInfo → ProviderSpecification → Option ProcessedProviderTrait → ProviderTraitGenerator
generator_of info spec processed = record {
  build_info = info;
  spec = (separate_probes spec).0;
  processed_provider = processed;
  probes = (separate_probes spec).1;
}

-- The implementation where the native code could not be generated
abbrev pub fallback : BuildInfo → BuildInfo
fallback info = record info { implementation = TracingImplementation.static_no_op }

-- A warning goes to stderr, which the world leaves out.
unfoldable pub with_processed :
    BuildInfo
    → ProviderSpecification
    → Outcome TracersError ProcessedProviderTrait
    → Outcome TracersError ProviderTraitGenerator
unfolding separate_probes
with_processed info spec (returns processed w) = returns (generator_of info spec (some processed)) w
with_processed info spec (fails e w) = returns (generator_of (fallback info) spec none) w
with_processed info spec (panics message w) = panics message w

unfoldable pub new :
    Tools
    → Environment
    → BuildInfo
    → ProviderSpecification
    → World
    → Outcome TracersError ProviderTraitGenerator
unfolding with_processed get_processed_provider_info TracingImplementation.is_dynamic
    TracingImplementation.tracing_target
new tools env info spec w =
    if TracingImplementation.is_dynamic info.implementation
    then panics "assertion failed: !build_info.implementation.is_dynamic()" w
    else if TracingTarget.is_enabled (target_of info)
    then with_processed info spec (get_processed_provider_info tools env spec w)
    else returns (generator_of info spec none) w

-- The first static wrapper library
unfoldable pub wrapper_lib : List NativeLib → Option String
wrapper_lib [] = none
wrapper_lib (static_wrapper_lib lib ∷ _) = some lib
wrapper_lib (_ ∷ libs) = wrapper_lib libs

-- `none` is a panic.
unfoldable pub wrapper_funcs : List ProbeSpecification → Option (List (Option WrapperFunc))
unfolding generate_wrapper_func
wrapper_funcs [] = some []
wrapper_funcs (probe ∷ rest) = elim (generate_wrapper_func probe) [
  | none ↦ none
  | some func ↦ elim (wrapper_funcs rest) [ none ↦ none | some funcs ↦ some (func ∷ funcs) ]
]

module _ (naming : Naming) where
  unfoldable pub generate_tracer_struct : String → ProviderTraitGenerator → TracerStruct
  unfolding generate_trait_methods generate_trait_comment TracingImplementation.tracing_target
      TracingImplementation.tracing_type TracingImplementation.as_ref TracingType.as_ref
  generate_tracer_struct version g = record {
    attrs = g.spec.item_trait.attrs;
    doc = generate_trait_comment g.spec;
    vis = g.spec.item_trait.vis;
    ident = g.spec.item_trait.ident;
    methods = map (generate_trait_methods naming g.build_info g.spec) g.probes;
    info =
        g.spec.name
        ∷ (elim (target_of g.build_info) [
          | TracingTarget.disabled ↦ TracingType.as_ref TracingType.disabled
          | _ ↦
              TracingType.as_ref (TracingImplementation.tracing_type g.build_info.implementation)
              <> "/"
              <> TracingImplementation.as_ref g.build_info.implementation
        ])
        ∷ version
        ∷ [];
  }

  unfoldable pub mod_contents : ProviderTraitGenerator → List (Option WrapperFunc) → ModContents
  unfolding generate_native_declaration get_provider_impl_mod_name TracingImplementation.is_enabled
  mod_contents g wrappers = record {
    vis = g.spec.item_trait.vis;
    name = get_provider_impl_mod_name naming.to_snake_case g.spec.item_trait.ident;
    imports_libc = TracingImplementation.is_enabled g.build_info.implementation;
    wrapper_funcs = wrappers;
    native_declarations = map (generate_native_declaration naming g.build_info g.spec) g.probes;
  }

  unfoldable pub extern_mod : ProviderTraitGenerator → List (Option WrapperFunc) → Option ImplMod
  unfolding mod_contents generate_rust_is_enabled wrapper_lib
  extern_mod g wrappers = elim g.processed_provider [
    | none ↦ none
    | some processed ↦ some (
        extern_c (mod_contents g wrappers)
          (map (generate_rust_is_enabled naming g.build_info g.spec) g.probes)
          (wrapper_lib processed.native_libs))
  ]

  -- The functions are made only where the target's template has them. `none` is a panic.
  unfoldable pub generate_impl_mod : ProviderTraitGenerator → Option ImplMod
  unfolding extern_mod wrapper_funcs mod_contents TracingImplementation.tracing_target
  generate_impl_mod g = elim (target_of g.build_info) [
    | TracingTarget.disabled ↦ some no_mod
    | TracingTarget.no_op ↦ elim (wrapper_funcs g.probes) [
      | none ↦ none
      | some wrappers ↦ some (dummy (mod_contents g wrappers))
    ]
    | _ ↦ elim (wrapper_funcs g.probes) [ none ↦ none | some wrappers ↦ extern_mod g wrappers ]
  ]

  unfoldable pub generate : String → ProviderTraitGenerator → Option (TracerStruct × ImplMod)
  unfolding generate_tracer_struct generate_impl_mod
  generate version g = elim (generate_impl_mod g) [
    | none ↦ none
    | some impl_mod ↦ some (generate_tracer_struct version g, impl_mod)
  ]
