-- ===== src/Tests/Runtime.antt =====
-- Instances for dynamic tracing and the macros.
use tracers.Prelude.{
  String, ◌++◌, length, none, some, List, [], ◌∷◌, ok, ◌≡◌, ◌≢◌, refl, true, All, if◌then◌else◌,
  str_eq,
}
use tracers.Syn.Types.{SynType}
use tracers.Core.ArgType.{ArgType, integer, u64}
use tracers.Std.Environment.{Environment}
use tracers.Std.Exec.{World, returns, panics}
use tracers.Error.{call_site}
use tracers.Tracing.TracingImplementation
use tracers.BuildRs.BuildInfo.{BuildInfo, load, get_build_path}
use tracers.Spec.Provider.{ItemTrait, TracerAttributeArgs, ProviderSpecification}
use tracers.Spec.ProbeCall.{Tokens}
use tracers.Dynamic.{new}
use tracers.Arity.Stap.{all_args, stap_arg_names}
use tracers.Arity.Fires.{stap_arg_names-variadic}
use tracers.Dynamic.Stap.{
  NativeArgType, uint64, variadic, Log, Libstapsdt, StapProviderBuilder, StapProvider, add_probe,
  build, define_provider,
}
use tracers.Dynamic.Stap.Builder.{IsValid, add_probe-IsValid}
use tracers.Dynamic.Stap.Protocol.{absent, Ends, Built, build-Ends}
use tracers.Gen.Rust.Dynamic.{ImplMod}
use tracers.Gen.Dynamic.{
  Naming, ProviderTraitGenerator, generate_impl_mod, generate_define_provider_call,
}
use tracers.Gen.Dynamic.Links.{run, GetsProbe, generate_impl_mod-initializes}
use tracers.Spec.Provider
use tracers.Spec.Partial
use tracers.Gen.NativeCode.{get_processed_provider_info}
use tracers.Hashing.{add_hash_to_path}
use tracers.Cache.{cached_results_path, load_cached_results}
use tracers.Std.FilePath.{file_stem, set_file_name, join}
use tracers.Std.FilePath.Parse.{from}
use tracers.Std.Disk.{read_file}
use tracers.Gen.Generator.{Context, ProviderCode, static_generator, code_generator}
use tracers.ProcMacros.{stream, tracer}
use tracers.ProcMacros.Attribute.{tracer-accepts}
use tracers.Tests.Generated.{clock, tick, tools, naming, full_world, stap_info, processed}

abbrev one_probe : StapProviderBuilder
one_probe = record { probes = new "tick" (integer u64 ∷ []) ∷ [] }

abbrev two_probes : StapProviderBuilder
two_probes = record { probes = one_probe.probes ++ new "tock" [] ∷ [] }

one_probe-IsValid : IsValid one_probe
unfolding new
one_probe-IsValid = record { named = (cc, tt); distinct = (tt, tt) }

add_probe-IsValid_example :
    IsValid two_probes × (two_probes.probes ≡ one_probe.probes ++ new "tock" [] ∷ [])
unfolding add_probe new
add_probe-IsValid_example = add_probe-IsValid one_probe "tock" [] one_probe-IsValid refl

-- A library that refuses nothing
abbrev lib : Libstapsdt
lib = record { init = λ log name. some 7; add = λ log p name n args. some 9; load = λ log p. true }

build-Ends_example : Ends absent [] Built (build lib two_probes "clock" [])
build-Ends_example = build-Ends lib two_probes "clock" []

abbrev resolve : SynType → ArgType
resolve t = integer u64

abbrev dynamic_info : BuildInfo
dynamic_info = record { package_name = "app"; implementation = TracingImplementation.dynamic_stap }

abbrev generator : ProviderTraitGenerator
generator = record {
  build_info = dynamic_info;
  spec = record clock { probes = [] };
  probes = tick ∷ [];
}

abbrev dynamic_naming : Naming
dynamic_naming = record {
  to_snake_case = λ s. "clock_provider";
  to_shouty_snake_case = λ s. "CLOCK_PROVIDER";
}

defined :
    (provider : StapProvider) × (log : Log) × (run resolve lib
        (generate_define_provider_call generator.spec generator.probes)
        []
      ≡ (ok provider, log))
unfolding generate_define_provider_call define_provider add_probe
defined = (_, _, refl)

generate_impl_mod-initializes_example :
    (impl : ImplMod) × (made : Log) × (generate_impl_mod dynamic_naming generator ≡ some impl)
    × (impl.define_provider_call ≡ generate_define_provider_call generator.spec generator.probes)
    × (defined.1 ≡ [] ++ made)
    × All (GetsProbe resolve lib defined.0 made) impl.struct_initializers
generate_impl_mod-initializes_example =
    generate_impl_mod-initializes resolve lib dynamic_naming generator [] defined.2 ((refl, tt), tt)

abbrev no_args : TracerAttributeArgs
no_args = record { provider_name = none }

abbrev user_variables : Environment
user_variables name =
    if str_eq name "CARGO_PKG_NAME"
    then some "app"
    else if str_eq name "OUT_DIR"
    then some "/out"
    else some "/info"

-- The build info asks for static tracing with SystemTap.
abbrev context : Context
context = record {
  tools = tools;
  codec = record { encode = λ i. []; decode = λ bytes. ok stap_info };
  env = user_variables;
  static_naming = naming;
  dynamic_naming = dynamic_naming;
  version = "0.1.0";
}

abbrev tokens : Tokens
tokens = record { print = λ e. "an expression"; span = λ e. call_site }

-- A trait without probes
abbrev quiet_trait : ItemTrait
quiet_trait = record {
  attrs = [];
  ident = "Quiet";
  vis = "pub";
  type_params = [];
  lifetimes = [];
  items = [];
  span = call_site;
}

picked : code_generator context full_world ≡ returns (static_generator stap_info) full_world
unfolding code_generator load get_build_path read_file
picked = refl

abbrev quiet_spec : ProviderSpecification
quiet_spec = record {
  name = "app_clock";
  hash = 255;
  item_trait = quiet_trait;
  args = no_args;
  probes = [];
}

quiet_found :
    get_processed_provider_info tools user_variables quiet_spec full_world
    ≡ returns processed full_world
unfolding get_processed_provider_info cached_results_path add_hash_to_path file_stem from
    set_file_name join load_cached_results read_file
quiet_found = refl

quiet_calm :
    (spec : ProviderSpecification) (m : String) (v : World)
    → Provider.new tools.crates "app" no_args quiet_trait ≡ Partial.pure spec
    → get_processed_provider_info tools user_variables spec full_world ≢ panics m v
unfolding Provider.new
quiet_calm spec m v made panicked =
    let same : quiet_spec ≡ spec = cc in
    let here : get_processed_provider_info tools user_variables quiet_spec full_world ≡ panics m v =
      rw same panicked in
    absurd (cc (rw quiet_found at here))

tracer-accepts_example :
    (code : ProviderCode) × (w : World) × (tracer context tokens
        (ok no_args)
        (ok quiet_trait)
        full_world
      ≡ returns (stream code) w)
tracer-accepts_example =
    tracer-accepts context tokens no_args quiet_trait full_world picked refl (refl, refl, tt)
      quiet_calm

-- Nine arguments, of which libstapsdt takes six
abbrev nine : List NativeArgType
nine = uint64 ∷ uint64 ∷ uint64 ∷ uint64 ∷ uint64 ∷ uint64 ∷ uint64 ∷ uint64 ∷ uint64 ∷ []

stap_arg_names-variadic_example : (length (all_args 9) ≡ 9) × (length (stap_arg_names 9) ≡ 6)
unfolding variadic
stap_arg_names-variadic_example = stap_arg_names-variadic nine
