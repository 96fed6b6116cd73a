-- ===== src/Tests/Generated.antt =====
-- Instances for the generated code.
use mathlib.Core.List.{Memᴰ}
use tracers.Prelude.{
  String, none, some, List, [], ◌∷◌, ok, err, ◌≡◌, refl, true, false, str_eq, if◌then◌else◌, All,
  inl,
}
use tracers.Std.FilePath.{FilePath, parent, file_stem, set_file_name, join}
use tracers.Std.FilePath.Parse.{from}
use tracers.Hashing.{add_hash_to_path}
use tracers.Cache.{cached_results_path, load_cached_results}
use tracers.Std.Disk.{
  Bytes, file, read_file, create_dir_all, is_blocked, create, is_ancestor, write,
}
use tracers.Std.FilePath.Equality.{bool_eq, path_eq}
use tracers.Std.Environment.{Environment}
use tracers.Std.Exec.{World, pure, returns, fails}
use tracers.Syn.Types
use tracers.Syn.Types.{SynType}
use tracers.Error.{call_site, format_err, TracersError, Fallible}
use tracers.Core.CType
use tracers.Tracing.TracingTarget
use tracers.Tracing.TracingImplementation
use tracers.ArgTypes.{named}
use tracers.Spec.ProbeArg.{ProbeArgSpecification}
use tracers.Spec.Probe.{TraitItemMethod, ProbeSpecification}
use tracers.Spec.Provider.{ItemTrait, ProviderSpecification, Crates, name_with_hash}
use tracers.Spec.ProbeCall.{SynPath, path, ProbeCallDetails}
use tracers.BuildRs.BuildInfo.{BuildInfo}
use tracers.Gen.NativeLib.{static_wrapper_lib, static_wrapper_lib_path}
use tracers.Gen.NativeCode.{Tools, ProcessedProviderTrait, get_processed_provider_info}
use tracers.Gen.Rust.{ImplMod, CallCode}
use tracers.Gen.Static.Probe.{Naming, wrapper_name}
use tracers.Gen.Static.ProviderTrait.{fallback, wrapper_lib, generator_of, new, generate_impl_mod}
use tracers.Gen.Static.ProviderTrait.Links.{linked_symbols, symbols_of, generate_impl_mod-links}
use tracers.Gen.Static.ProbeCall.{generate_probe_call}
use tracers.Gen.Static.ProbeCall.Declared.{functions, names_of_call}
use tracers.Gen.Static.ProbeCall.Resolves.{generate_probe_call-resolves}
use tracers.Gen.Static.ProviderTrait.Fallback.{generate_probe_call-unresolved}
use tracers.Gen.NativeCode.Target.{Machine, output_dir}
use tracers.Gen.NativeCode.Target.Stap
use tracers.Gen.NativeCode.Target.Stap.{StapProbeCode}
use tracers.Gen.NativeCode.Target.Lttng.{LttngTools, not_found, lttng_events, lttng_wrapper}
use tracers.Gen.NativeCode.Target.Bounds.{AreBounded, lttng_events-AreBounded}
use tracers.Gen.NativeCode.Target.Linked.{generate_native_lib-LinksWith}
use tracers.Tests.Data.{healthy, empty_world}

abbrev u64 : SynType
u64 = named "u64"

-- `fn tick(count: u64);`
abbrev tick_method : TraitItemMethod
tick_method = record {
  ident = "tick";
  has_default = false;
  is_const = false;
  is_unsafe = false;
  is_async = false;
  has_abi = false;
  type_params = [];
  is_variadic = false;
  output = Types.default;
  inputs = [];
  span = call_site;
}

abbrev pub count : ProbeArgSpecification
count = record {
  name = "count";
  probe_name = "tick";
  ordinal = 0;
  ident = "count";
  syn_typ = u64;
  syn_typ_with_lifetimes = u64;
  arg_type_info = record {
    c_type = CType.ulong_long;
    c_type_str = "unsigned long long";
    rust_type_str = "libc::c_ulonglong";
  };
}

abbrev pub tick : ProbeSpecification
tick = record {
  name = "tick";
  method_name = "tick";
  original_method = tick_method;
  vis = "pub";
  span = call_site;
  args = count ∷ [];
}

abbrev clock_trait : ItemTrait
clock_trait = record {
  attrs = [];
  ident = "Clock";
  vis = "pub";
  type_params = [];
  lifetimes = [];
  items = [];
  span = call_site;
}

abbrev pub clock : ProviderSpecification
clock = record {
  name = "app_clock";
  hash = 255;
  item_trait = clock_trait;
  args = record { provider_name = none };
  probes = tick ∷ [];
}

abbrev pub crates : Crates
crates = record {
  printer = record { print_arg = λ arg. "an argument"; print_type = λ typ. "a type" };
  hash = λ i. 255;
  to_snake_case = λ s. "clock";
  from_list = λ s. err "Unknown field";
}

abbrev pub naming : Naming
naming = record { to_snake_case = λ s. "clock_provider"; to_uppercase = λ s. "TICK_SEMAPHORE" }

abbrev pub processed : ProcessedProviderTrait
processed = record { native_libs = static_wrapper_lib "app_clock_ff" ∷ [] }

abbrev pub tools : Tools
tools = record {
  os = healthy;
  crates = crates;
  parse_file = λ text. err (format_err "no parser");
  hash_buf = λ bytes. 255;
  from_utf8 = λ bytes. ok "";
  file_codec = record { encode = λ f. []; decode = λ bytes. err (format_err "no file") };
  provider_codec = record { encode = λ p. []; decode = λ bytes. ok processed };
  codegen_name = "tracers-codegen";
  codegen_version = "0.1.0";
  generate_stap = λ p spec. pure [];
  generate_lttng = λ p spec. pure [];
}

abbrev pub variables : Environment
variables name = if str_eq name "OUT_DIR" then some "/out" else some "/info"

abbrev pub stap_info : BuildInfo
stap_info = record { package_name = "app"; implementation = TracingImplementation.static_stap }

-- Every file is there.
abbrev pub full_world : World
full_world = record { disk = λ p. some (file []); out = [] }

pub processed_found :
    get_processed_provider_info tools variables clock full_world ≡ returns processed full_world
unfolding get_processed_provider_info cached_results_path add_hash_to_path file_stem from
    set_file_name join load_cached_results read_file
processed_found = refl

made :
    new tools variables stap_info clock full_world
    ≡ returns (generator_of stap_info clock (some processed)) full_world
unfolding new TracingImplementation.is_dynamic TracingImplementation.tracing_target
made = rw (processed_found, new) refl

generate_impl_mod-links_example :
    (impl : ImplMod) × (generate_impl_mod naming (generator_of stap_info clock (some processed))
      ≡ some impl)
    × (linked_symbols impl ≡ symbols_of TracingTarget.stap clock)
unfolding TracingImplementation.tracing_target
generate_impl_mod-links_example =
    generate_impl_mod-links naming tools variables stap_info clock full_world made

abbrev clock_mod_path : SynPath
clock_mod_path = record {
  leading = false;
  segments = record { values = "Clock" ∷ []; trailing = false };
}

-- `probe!(Clock::tick(1))`
abbrev tick_call : ProbeCallDetails
tick_call = record {
  call = path clock_mod_path;
  probe_fq_path = clock_mod_path;
  provider = clock_mod_path;
  probe = "tick";
  args = "1" ∷ [];
}

tick_code : (code : CallCode) × (generate_probe_call naming stap_info tick_call ≡ some code)
unfolding generate_probe_call
tick_code = (_, refl)

clock_mod :
    (impl : ImplMod) × (generate_impl_mod naming (generator_of stap_info clock (some processed))
      ≡ some impl)
clock_mod =
    let (impl, generated, _) =
      generate_impl_mod-links naming tools variables stap_info clock full_world made in
    (impl, generated)

generate_probe_call-resolves_example :
    All (λ n. Memᴰ n (functions clock_mod.0)) (names_of_call tick_code.0)
generate_probe_call-resolves_example =
    generate_probe_call-resolves naming stap_info clock processed tick_call (Memᴰ.head refl)
      (refl, refl, refl) clock_mod.1 tick_code.1

not_processed :
    (e : TracersError) × (get_processed_provider_info tools variables clock empty_world
      ≡ fails e empty_world)
unfolding get_processed_provider_info cached_results_path add_hash_to_path file_stem from
    set_file_name join load_cached_results read_file
not_processed = (_, refl)

generate_probe_call-unresolved_example :
    (impl : ImplMod) × (new tools variables stap_info clock empty_world
      ≡ returns (generator_of (fallback stap_info) clock none) empty_world)
    × (generate_impl_mod naming (generator_of (fallback stap_info) clock none) ≡ some impl)
    × Memᴰ "tick_enabled" (names_of_call tick_code.0)
    × (¬ Memᴰ "tick_enabled" (functions impl))
unfolding TracingImplementation.tracing_target TracingImplementation.is_dynamic wrapper_name
generate_probe_call-unresolved_example =
    generate_probe_call-unresolved naming tools variables stap_info clock empty_world tick_call refl
      refl not_processed.1 tick_code.1 ((cc, cc), tt)

-- With more arguments than LTTng takes
abbrev long_clock : ProviderSpecification
long_clock = record clock {
  probes =
      record tick {
        args =
            count ∷ count ∷ count ∷ count ∷ count ∷ count ∷ count ∷ count ∷ count ∷ count ∷ count
            ∷ [];
      }
      ∷ [];
}

lttng_events-AreBounded_example : AreBounded (lttng_events long_clock) (lttng_wrapper long_clock)
lttng_events-AreBounded_example = lttng_events-AreBounded long_clock

abbrev machine : Machine
machine = record {
  os = healthy;
  debug_assertions = false;
  try_compile = λ build name disk. (none, disk);
}

abbrev lttng_tools : LttngTools
lttng_tools = record {
  render_template = λ spec events. ok ("", []);
  render_wrapper = λ spec codes. ok ("", []);
  lttng_gen_tp = λ dir template impl header disk. (not_found, disk);
  pkg_config = none;
  info_codec = record { encode = λ i. []; decode = λ bytes. err (format_err "no info") };
  codegen_name = "tracers-codegen";
  codegen_version = "0.1.0";
}

abbrev render : ProviderSpecification → List StapProbeCode → Fallible (String × Bytes)
render spec codes = ok ("", [])

abbrev out_dir : FilePath
out_dir = record { absolute = true; components = "out" ∷ [] }

compiled :
    (w : World) × (Stap.generate_native_lib machine render out_dir clock empty_world
      ≡ returns
          (static_wrapper_lib "app_clock_ff" ∷ static_wrapper_lib_path (output_dir out_dir) ∷ [])
          w)
unfolding Stap.generate_native_lib create_dir_all is_blocked join create is_ancestor bool_eq parent
    write path_eq
compiled = (_, refl)

generate_native_lib-LinksWith_example :
    wrapper_lib
      (static_wrapper_lib "app_clock_ff" ∷ static_wrapper_lib_path (output_dir out_dir) ∷ [])
    ≡ some "app_clock_ff"
unfolding name_with_hash
generate_native_lib-LinksWith_example =
    generate_native_lib-LinksWith machine render lttng_tools out_dir clock empty_world
      (inl compiled.1)
