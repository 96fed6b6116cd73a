-- ===== src/Gen/Common.antt =====
-- tracers-codegen/src/gen/common/mod.rs: what the generators share. `to_snake_case` is the crate heck's.
use Prim.Native.Char.{code}
use tracers.Prelude.{
  String, ◌<>◌, Option, none, some, List, [], ◌∷◌, ◌++◌, map, ◌==◌, if◌then◌else◌, str_eq, ok,
}
use tracers.Syn.Types.{SynType}
use tracers.Error.{TracersResult}
use tracers.Spec.ProbeArg.{ProbeArgSpecification, lifetimes}
use tracers.Spec.Probe.{ProbeSpecification}
use tracers.Spec.Provider.{ProviderSpecification}
use tracers.Spec.ProbeCall.{SynPath}
use tracers.Gen.Rust.{Tuple, unit, elements, InitCode, try_init}

-- `str::lines`, of text without carriage returns: the line so far, and the rest.
lines_from : String → String → List String
lines_from line String.[] = if str_eq line "" then [] else line ∷ []
lines_from line (String.◌∷◌ c s) =
    let next = lines_from "" s in
    let more = lines_from (line <> String.◌∷◌ c "") s in if code c == 10 then line ∷ next else more

-- The texts of the attributes `#[doc = …]`
unfoldable pub generate_multiline_comments : String → List String
unfolding lines_from
generate_multiline_comments comment = map (λ line. " " <> line) (lines_from "" comment)

unfoldable pub generate_trait_comment : ProviderSpecification → List String
unfolding generate_multiline_comments
generate_trait_comment spec = generate_multiline_comments (
    "\n# Probing\n\nThis trait is translated at compile-time by `tracers` into a platform-specific tracing\nprovider, which allows very high-performance and low-overhead tracing of the probes it\nfires.\n\nThe exact details of how to use interact with the probes depends on the underlying\nprobing implementation.\n\n## SystemTap/USDT (Linux x64)\n\nThis trait corresponds to a SystemTap/USDT provider named `"
    <> spec.name <> "`,\n\n## Other platforms\n\nTODO: No other platforms supported yet\n")

unfoldable pub generate_probe_deprecation_attribute :
    ProviderSpecification → ProbeSpecification → String
generate_probe_deprecation_attribute provider probe =
    "Probe methods should not be called directly.  Use the `probe!` macro, e.g. `probe!("
    <> provider.item_trait.ident <> "::" <> probe.method_name <> "(...))`"

unfoldable pub generate_probe_doc_comment : ProviderSpecification → ProbeSpecification → List String
unfolding generate_multiline_comments
generate_probe_doc_comment provider probe = generate_multiline_comments (
    "\n# Probing\n\nThis method is translated at compile-time by `tracers` into a platform-specific tracing\nprobe, which allows very high-performance and low-overhead tracing.\n\n## How to fire probe\n\nTo fire this probe, don't call this method directly. Instead, use the `probe!` macro, for example:\n\n```ignore\n// If the probe is enabled, fires the probe.  If the probe isn't enabled, or if provider\n// initialization failed for some reason, does not fire the probe, and does NOT evaluate the\n// arguments to the probe.\nprobe!("
    <> provider.item_trait.ident <> "::" <> probe.name
    <> "(...));\n```\n\nThe exact details of how to interact with the probes depends on the underlying\nprobing implementation.\n\n## SystemTap/USDT (Linux x64)\n\nTo trace the firing of this probe, use `bpftrace`, e.g.:\n```text\nsudo bpftrace -p ${PID} -e 'usdt::"
    <> provider.name <> ":" <> probe.name <> " { printf(\"Hello from " <> probe.name
    <> "\\n\"); }'\n```\n\nwhere `${PID}` should be the actual process ID of the process you are tracing.\n\n## Other platforms\n\nTODO: No other platforms supported yet\n\n")

-- `map(…).flatten()`; `none` is the panic that `lifetimes` may be.
unfoldable pub args_lifetime_parameters : List ProbeArgSpecification → Option (List String)
unfolding lifetimes
args_lifetime_parameters [] = some []
args_lifetime_parameters (arg ∷ rest) = elim (lifetimes arg) [
  | none ↦ none
  | some ls ↦ elim (args_lifetime_parameters rest) [ none ↦ none | some more ↦ some (ls ++ more) ]
]

unfoldable pub generate_tuple {ℓ} : {A : Type ℓ} → List A → Tuple A
generate_tuple [] = unit
generate_tuple (x ∷ xs) = elements (x ∷ xs)

unfoldable pub args_as_tuple_value : ProbeSpecification → Tuple String
unfolding generate_tuple
args_as_tuple_value probe =
    generate_tuple (map (λ (arg : ProbeArgSpecification). arg.ident) probe.args)

unfoldable pub args_as_tuple_type_without_lifetimes : ProbeSpecification → Tuple SynType
unfolding generate_tuple
args_as_tuple_type_without_lifetimes probe =
    generate_tuple (map (λ (arg : ProbeArgSpecification). arg.syn_typ) probe.args)

unfoldable pub args_as_tuple_type_with_lifetimes : ProbeSpecification → Tuple SynType
unfolding generate_tuple
args_as_tuple_type_with_lifetimes probe =
    generate_tuple (map (λ (arg : ProbeArgSpecification). arg.syn_typ_with_lifetimes) probe.args)

unfoldable pub get_provider_impl_mod_name : (String → String) → String → String
get_provider_impl_mod_name to_snake_case ident = "__" <> to_snake_case (ident <> "Provider")

-- `add_suffix_to_ident` of syn_helpers.rs
unfoldable pub add_suffix_to_ident : String → String → String
add_suffix_to_ident ident suffix = ident <> suffix

unfoldable pub get_provider_impl_struct_type_name : String → String
unfolding add_suffix_to_ident
get_provider_impl_struct_type_name ident = add_suffix_to_ident ident "ProviderImpl"

unfoldable pub generate_init_provider : SynPath → TracersResult InitCode
generate_init_provider provider = ok (try_init provider)
