-- ===== src/Gen/Dynamic.antt =====
-- tracers-codegen/src/gen/dynamic: the code for dynamic tracing. heck's `to_snake_case` and
-- `to_shouty_snake_case` are parameters.
pub mod Links
use tracers.Prelude.{
  String, ◌<>◌, Bool, true, false, Option, none, some, List, [], ◌∷◌, ◌++◌, map, if◌then◌else◌,
}
use tracers.Std.FilePath.{FilePath}
use tracers.Std.Exec.{Exec, print, pure, ◌>>◌}
use tracers.Syn.Types.{SynType, ReturnType, default}
use tracers.Tracing.TracingType
use tracers.Tracing.TracingImplementation
use tracers.BuildRs.BuildInfo.{BuildInfo}
use tracers.Spec.Probe.{TraitItemMethod, ProbeSpecification}
use tracers.Spec.Provider.{Attribute, ProviderSpecification, separate_probes}
use tracers.Spec.ProbeCall.{ProbeCallDetails}
use tracers.Gen.NativeLib.{NativeLib}
use tracers.Gen.Rust.{Tuple, CallCode, dynamic_fire}
use tracers.Gen.Rust.Dynamic.{
  ProbeType, ProbeMethods, AddProbeCall, StructInitializer, TracerStruct, DefineProviderCall,
  ImplMod,
}
use tracers.Gen.Common.{
  generate_trait_comment, generate_probe_deprecation_attribute, generate_probe_doc_comment,
  args_lifetime_parameters, generate_tuple, args_as_tuple_value,
  args_as_tuple_type_without_lifetimes, args_as_tuple_type_with_lifetimes,
  get_provider_impl_mod_name, add_suffix_to_ident, get_provider_impl_struct_type_name,
}

-- `__tracers_probe` is bound to what `provider::get_<probe>_probe()` answers.
unfoldable pub generate_probe_call : ProbeCallDetails → CallCode
unfolding generate_tuple
generate_probe_call details =
    dynamic_fire details.provider ("get_" <> details.probe <> "_probe")
      (generate_tuple details.args)

pub record Naming : Type 0 where
  pub to_snake_case : String → String
  pub to_shouty_snake_case : String → String

unfoldable pub generate_provider_probe_type : ProbeSpecification → ProbeType
unfolding args_as_tuple_type_with_lifetimes
generate_provider_probe_type probe = record {
  lifetime = "'a";
  args = args_as_tuple_type_with_lifetimes probe;
}

unfoldable pub generate_struct_member_declaration : ProbeSpecification → String × ProbeType
unfolding generate_provider_probe_type
generate_struct_member_declaration probe = (probe.method_name, generate_provider_probe_type probe)

unfoldable pub generate_struct_member_initialization : ProbeSpecification → StructInitializer
unfolding args_as_tuple_type_without_lifetimes
generate_struct_member_initialization probe = record {
  member = probe.method_name;
  args = args_as_tuple_type_without_lifetimes probe;
  name = probe.name;
}

unfoldable pub generate_add_probe_call : ProbeSpecification → AddProbeCall
unfolding args_as_tuple_type_with_lifetimes
generate_add_probe_call probe = record {
  args = args_as_tuple_type_with_lifetimes probe;
  name = probe.name;
}

unfoldable pub generate_define_provider_call :
    ProviderSpecification → List ProbeSpecification → DefineProviderCall
unfolding generate_add_probe_call
generate_define_provider_call spec probes = record {
  provider_name = spec.name;
  add_probe_calls = map generate_add_probe_call probes;
}

abbrev without_inputs : String → TraitItemMethod → TraitItemMethod
without_inputs name method = record method { ident = name; inputs = []; output = default }

-- `none` is the panic that the lifetimes of an argument may be.
unfoldable pub generate_trait_methods :
    ProviderSpecification → String × String → ProbeSpecification → Option ProbeMethods
unfolding add_suffix_to_ident args_lifetime_parameters args_as_tuple_value
    generate_provider_probe_type generate_probe_doc_comment generate_probe_deprecation_attribute
generate_trait_methods provider struct_type_path probe =
    elim (args_lifetime_parameters probe.args) [
      | none ↦ none
      | some lifetimes ↦
          let original = probe.original_method in
          let getter = without_inputs ("get_" <> original.ident <> "_probe") original in
          some (record {
            doc = generate_probe_doc_comment provider probe;
            deprecated = generate_probe_deprecation_attribute provider probe;
            vis = probe.vis;
            struct_type_path = struct_type_path;
            member = probe.method_name;
            original_method = original;
            fires = args_as_tuple_value probe;
            enabled_method =
                without_inputs (add_suffix_to_ident original.ident "_enabled") original;
            probe_method = record getter { type_params = original.type_params ++ "'a" ∷ lifetimes };
            returns = generate_provider_probe_type probe;
          })
    ]

unfoldable pub all_methods :
    ProviderSpecification → String × String → List ProbeSpecification → Option (List ProbeMethods)
unfolding generate_trait_methods
all_methods provider path [] = some []
all_methods provider path (probe ∷ rest) = elim (generate_trait_methods provider path probe) [
  | none ↦ none
  | some methods ↦ elim (all_methods provider path rest) [
    | none ↦ none
    | some more ↦ some (methods ∷ more)
  ]
]

-- The lifetimes of all probes; `none` is a panic.
unfoldable pub all_lifetimes : List ProbeSpecification → Option (List String)
unfolding args_lifetime_parameters
all_lifetimes [] = some []
all_lifetimes (probe ∷ rest) = elim (args_lifetime_parameters probe.args) [
  | none ↦ none
  | some lifetimes ↦ elim (all_lifetimes rest) [
    | none ↦ none
    | some more ↦ some (lifetimes ++ more)
  ]
]

unfoldable pub generate_provider_struct_type_params : List ProbeSpecification → Option (List String)
unfolding all_lifetimes
generate_provider_struct_type_params probes = elim (all_lifetimes probes) [
  | none ↦ none
  | some lifetimes ↦ some ("'a" ∷ lifetimes)
]

pub record ProviderTraitGenerator : Type 0 where
  pub build_info : BuildInfo
  pub spec : ProviderSpecification
  pub probes : List ProbeSpecification

-- `none` is the panic of the assertion.
unfoldable pub new : BuildInfo → ProviderSpecification → Option ProviderTraitGenerator
unfolding separate_probes TracingImplementation.is_dynamic
new info spec =
    if TracingImplementation.is_dynamic info.implementation
    then some (record {
      build_info = info;
      spec = (separate_probes spec).0;
      probes = (separate_probes spec).1;
    })
    else none

module _ (naming : Naming) where
  unfoldable pub struct_path : ProviderSpecification → String × String
  unfolding get_provider_impl_mod_name get_provider_impl_struct_type_name
  struct_path spec = (
    get_provider_impl_mod_name naming.to_snake_case spec.item_trait.ident,
    get_provider_impl_struct_type_name spec.item_trait.ident,
  )

  unfoldable pub get_provider_impl_struct_var_name : ProviderSpecification → String
  get_provider_impl_struct_var_name spec =
      naming.to_shouty_snake_case (spec.item_trait.ident <> "ProviderImpl")

  unfoldable pub get_provider_instance_var_name : ProviderSpecification → String
  get_provider_instance_var_name spec =
      naming.to_shouty_snake_case (spec.item_trait.ident <> "Provider")

  unfoldable pub generate_tracer_struct : String → ProviderTraitGenerator → Option TracerStruct
  unfolding all_methods struct_path generate_trait_comment TracingImplementation.tracing_type
      TracingImplementation.as_ref TracingType.as_ref
  generate_tracer_struct version g = elim (all_methods g.spec (struct_path g.spec) g.probes) [
    | none ↦ none
    | some methods ↦ some (record {
      attrs = g.spec.item_trait.attrs;
      doc = generate_trait_comment g.spec;
      vis = g.spec.item_trait.vis;
      ident = g.spec.item_trait.ident;
      methods = methods;
      struct_type_path = struct_path g.spec;
      info =
          g.spec.name
          ∷ (TracingType.as_ref (TracingImplementation.tracing_type g.build_info.implementation)
              <> "/"
              <> TracingImplementation.as_ref g.build_info.implementation)
          ∷ version
          ∷ [];
    })
  ]

  unfoldable pub impl_mod_with : ProviderTraitGenerator → List String → ImplMod
  unfolding struct_path generate_struct_member_declaration generate_struct_member_initialization
      generate_define_provider_call get_provider_impl_struct_var_name get_provider_instance_var_name
  impl_mod_with g params = record {
    name = (struct_path g.spec).0;
    struct_type_name = (struct_path g.spec).1;
    struct_type_params = params;
    struct_members = map generate_struct_member_declaration g.probes;
    instance_var_name = get_provider_instance_var_name g.spec;
    struct_var_name = get_provider_impl_struct_var_name g.spec;
    define_provider_call = generate_define_provider_call g.spec g.probes;
    struct_initializers = map generate_struct_member_initialization g.probes;
  }

  unfoldable pub generate_impl_mod : ProviderTraitGenerator → Option ImplMod
  unfolding impl_mod_with generate_provider_struct_type_params
  generate_impl_mod g = elim (generate_provider_struct_type_params g.probes) [
    | none ↦ none
    | some params ↦ some (impl_mod_with g params)
  ]

  unfoldable pub generate : String → ProviderTraitGenerator → Option (TracerStruct × ImplMod)
  unfolding generate_tracer_struct generate_impl_mod
  generate version g = elim (generate_tracer_struct version g) [
    | none ↦ none
    | some tracer_struct ↦ elim (generate_impl_mod g) [
      | none ↦ none
      | some impl_mod ↦ some (tracer_struct, impl_mod)
    ]
  ]

-- `DynamicGenerator::generate_native_code`
unfoldable pub generate_native_code {ℓ} : {E : Type ℓ} → Exec E (List NativeLib)
generate_native_code = do
  print "dynamic generator doesn't require any build.rs code generation"
  pure []
