-- ===== src/Tests/Providers.antt =====
-- Instances for provider traits, probe calls and the processing of source files.
use tracers.Prelude.{
  ℕ, ◌<◌, ◌≢◌, ◌↔◌, ◌⊎◌, inl, inr, sym, arith, String, ◌<>◌, none, some, [], ◌∷◌, ◌++◌, ok, err,
  ◌≡◌, refl, true, false, if◌then◌else◌,
}
use tracers.Std.FilePath.{FilePath}
use mathlib.Core.Path.{subst}
use tracers.Std.Disk.{
  Disk, Bytes, file, put, exists, create_dir_all, create, write, is_blocked, is_ancestor,
}
use tracers.Std.Exec.{World, Outcome, pure, returns, fails, panic, after}
use tracers.Tracing.TracingImplementation.{TracingImplementation}
use tracers.Syn.Types
use tracers.Syn.Types.{SynType}
use tracers.Error.{call_site, TracersError, Fallible, Failure}
use tracers.ArgTypes.{named, ref_to, from_syn_type}
use tracers.Spec.Partial.{Partial}
use tracers.Spec.Partial
use tracers.Spec.ProbeArg.{ident, typed, Printer}
use tracers.Spec.Probe.{TraitItemMethod, ProbeSpecification, from_method}
use tracers.Spec.Probe.Accepted.{IsProbeMethod, AreArgsOf, from_method-accepts, from_method-refuses}
use tracers.Spec.Provider.{
  method, Meta, Attribute, ItemTrait, TracerAttributeArgs, ProviderSpecification, Crates, new,
  no_items, item, item_trait, mod_file, visit_item_trait, find_providers, from_token_stream,
  from_attribute, is_tracer_attribute, partition,
}
use tracers.Spec.Provider.Accepted.{IsProviderTrait, AreProbesOf, new-accepts, new-refuses}
use tracers.Spec.Provider.Found.{visit_item_trait-eq-macro, find_providers-panics, first, here}
use tracers.Spec.ProbeCall.{SynPath, call, path, Tokens, ProbeCallDetails, from_call_expression}
use tracers.Spec.ProbeCall.Split.{from_call_expression-accepts, from_call_expression-refuses}
use tracers.Prelude.Radix.{hex}
use tracers.Std.FilePath.{file_name, file_stem, extension, set_file_name, join, pop, parent}
use tracers.Std.FilePath.Equality.{path_eq, bool_eq}
use tracers.Std.Disk.{read_file}
use tracers.Hashing.{add_hash_to_path}
use tracers.Cache.{
  cached_results_path, cache_generated_file, load_cached_results, get_cache_path,
  cache_file_computation, compute_and_save, compute_on_text, check_created, save_results,
  create_output_directory,
}
use tracers.BuildRs.BuildInfo.{BuildInfo}
use tracers.Deps.{module_named, resolve_dependency, find_module}
use tracers.Gen.NativeCode.{
  ProcessedFile, Tools, out_of_fuel, process_file, processed_file, scan_file,
}
use tracers.Cache.Hit.{file_result_stays}
use tracers.Gen.NativeCode.Finishes.{Finished, process_file-Finished, Acyclic}
use tracers.Gen.NativeCode.Loops.{process_file-loops}
use tracers.Tests.Data.{healthy, absolute, world_with}

abbrev printer : Printer
printer = record { print_arg = λ arg. "an argument"; print_type = λ typ. "a type" }

-- `fn probe(name: &str, count: u64);`
abbrev probe_method : TraitItemMethod
probe_method = record {
  ident = "probe";
  has_default = false;
  is_const = false;
  is_unsafe = false;
  is_async = false;
  has_abi = false;
  type_params = [];
  is_variadic = false;
  output = Types.default;
  inputs =
      typed (ident "name") (ref_to (named "str")) call_site call_site
      ∷ typed (ident "count") (named "u64") call_site call_site
      ∷ [];
  span = call_site;
}

probe_method-IsProbeMethod : IsProbeMethod probe_method
unfolding from_syn_type
probe_method-IsProbeMethod =
    (refl, refl, refl, refl, refl, refl, refl, refl, ((_, refl), ((_, refl), tt)))

from_method-accepts_example :
    (spec : ProbeSpecification) × (from_method printer "pub" probe_method ≡ Partial.pure spec)
    × (spec.name ≡ "probe")
    × (spec.method_name ≡ "probe")
    × (spec.original_method ≡ probe_method)
    × (spec.vis ≡ "pub")
    × AreArgsOf "probe" 0 probe_method.inputs spec.args
from_method-accepts_example =
    from_method-accepts printer "pub" probe_method probe_method-IsProbeMethod

-- `unsafe fn probe(…)`
abbrev unsafe_method : TraitItemMethod
unsafe_method = record probe_method { is_unsafe = true }

unsafe_method-not-IsProbeMethod : ¬ IsProbeMethod unsafe_method
unsafe_method-not-IsProbeMethod (_, _, safe, _, _, _, _, _, _) = cc

from_method-refuses_example :
    (e : TracersError) × (from_method printer "pub" unsafe_method ≡ Partial.fail e)
from_method-refuses_example =
    from_method-refuses printer "pub" unsafe_method unsafe_method-not-IsProbeMethod

abbrev crates : Crates
crates = record {
  printer = printer;
  hash = λ i. 255;
  to_snake_case = λ s. "my_provider";
  from_list = λ s. err "Unknown field";
}

abbrev tracer_attribute : Attribute
tracer_attribute = record {
  segments = "tracers" ∷ "tracer" ∷ [];
  parsed_meta = ok Meta.path;
  span = call_site;
}

abbrev other_attribute : Attribute
other_attribute = record {
  segments = "doc" ∷ [];
  parsed_meta = ok Meta.name_value;
  span = call_site;
}

abbrev provider_trait : ItemTrait
provider_trait = record {
  attrs = other_attribute ∷ [];
  ident = "MyProvider";
  vis = "pub";
  type_params = [];
  lifetimes = [];
  items = method probe_method ∷ [];
  span = call_site;
}

abbrev attributed_trait : ItemTrait
attributed_trait = record provider_trait { attrs = other_attribute ∷ tracer_attribute ∷ [] }

abbrev no_args : TracerAttributeArgs
no_args = record { provider_name = none }

new-accepts_example :
    (spec : ProviderSpecification) × (new crates "app" no_args provider_trait ≡ Partial.pure spec)
    × (no_args.provider_name ≡ none → spec.name ≡ "app" <> "_" <> "my_provider")
    × ((name : String) → no_args.provider_name ≡ some name → spec.name ≡ name)
    × (◌≡◌ {A = ℕ} spec.hash 255)
    × (spec.item_trait ≡ provider_trait)
    × AreProbesOf provider_trait.items spec.probes
new-accepts_example =
    new-accepts crates "app" no_args provider_trait (refl, refl, (probe_method-IsProbeMethod, tt))

abbrev generic_trait : ItemTrait
generic_trait = record provider_trait { type_params = "T" ∷ [] }

generic_trait-not-IsProviderTrait : ¬ IsProviderTrait generic_trait
generic_trait-not-IsProviderTrait (no_params, _, _) = cc

new-refuses_example : (e : TracersError) × (new crates "app" no_args generic_trait ≡ Partial.fail e)
new-refuses_example =
    new-refuses crates "app" no_args generic_trait generic_trait-not-IsProviderTrait

-- The specification of the trait, as the macro makes it
accepted_provider :
    (spec : ProviderSpecification) × (from_token_stream crates "app" no_args (ok provider_trait)
      ≡ Partial.pure spec)
unfolding from_token_stream
accepted_provider =
    let (spec, made, _, _, _, _, _) =
      new-accepts crates "app" no_args provider_trait
        (refl, refl, (probe_method-IsProbeMethod, tt)) in
    (spec, made)

-- The build script finds the build info of `tracers`, and the macro runs in the crate `app`.
visit_item_trait-eq-macro_example :
    (found : ProviderSpecification) × (visit_item_trait crates "tracers" attributed_trait []
      ≡ some (found ∷ []))
    × (found.item_trait ≡ accepted_provider.0.item_trait)
    × (◌≡◌ {A = ℕ} found.hash accepted_provider.0.hash)
    × (found.probes ≡ accepted_provider.0.probes)
    × ((found.name ≡ accepted_provider.0.name)
        ↔ ((no_args.provider_name ≢ none) ⊎ (◌≡◌ {A = String} "tracers" "app")))
unfolding from_token_stream is_tracer_attribute from_attribute
visit_item_trait-eq-macro_example =
    visit_item_trait-eq-macro crates "tracers" "app" attributed_trait (other_attribute ∷ []) []
      tracer_attribute no_args no_args accepted_provider.0 [] refl (refl, tt) tt refl refl refl
      accepted_provider.1

-- `#[tracer(providername = "x")]`
abbrev bad_attribute : Attribute
bad_attribute = record tracer_attribute { parsed_meta = ok (Meta.list "providername = \"x\"") }

abbrev bad_trait : ItemTrait
bad_trait = record provider_trait { attrs = bad_attribute ∷ [] }

find_providers-panics_example :
    find_providers crates "app" (item (item_trait no_items bad_trait) no_items) ≡ none
unfolding from_attribute partition is_tracer_attribute
find_providers-panics_example =
    find_providers-panics crates "app" (item (item_trait no_items bad_trait) no_items) bad_trait
      bad_attribute _
      (first bad_trait (item_trait no_items bad_trait) no_items (here no_items bad_trait)) refl refl

abbrev tokens : Tokens
tokens = record { print = λ e. "an expression"; span = λ e. call_site }

-- `crate::MyProvider::probe`
abbrev probe_path : SynPath
probe_path = record {
  leading = false;
  segments = record { values = "crate" ∷ "MyProvider" ∷ "probe" ∷ []; trailing = false };
}

from_call_expression-accepts_example :
    (details : ProbeCallDetails) × (from_call_expression tokens (call (path probe_path) ("1" ∷ []))
      ≡ Partial.pure details)
    × (probe_path.segments.values ≡ details.provider.segments.values ++ details.probe ∷ [])
    × (details.provider.segments.trailing ≡ false)
    × (details.provider.leading ≡ probe_path.leading)
    × (details.args ≡ "1" ∷ [])
from_call_expression-accepts_example =
    from_call_expression-accepts tokens probe_path ("1" ∷ []) (omega arith)

from_call_expression-refuses_example :
    (error : TracersError) × (from_call_expression tokens (path probe_path) ≡ Partial.fail error)
from_call_expression-refuses_example =
    from_call_expression-refuses tokens (path probe_path) (λ h. h)

-- What the sources below are scanned with
abbrev info : BuildInfo
info = record { package_name = "app"; implementation = TracingImplementation.static_stap }

abbrev looping : ProcessedFile
looping = record { dependencies = module_named "foo" ∷ []; providers = [] }

abbrev plain : ProcessedFile
plain = record { dependencies = []; providers = [] }

abbrev tools : ProcessedFile → Tools
tools scanned = record {
  os = healthy;
  crates = crates;
  parse_file = λ text. ok no_items;
  hash_buf = λ bytes. 255;
  from_utf8 = λ bytes. ok "";
  file_codec = record { encode = λ f. []; decode = λ bytes. ok scanned };
  provider_codec = record { encode = λ p. []; decode = λ bytes. ok (record { native_libs = [] }) };
  codegen_name = "tracers-codegen";
  codegen_version = "0.1.0";
  generate_stap = λ p spec. pure [];
  generate_lttng = λ p spec. pure [];
}

abbrev source_file : FilePath
source_file = absolute ("src" ∷ ("foo" <> ".rs") ∷ [])

abbrev out_dir : FilePath
out_dir = absolute ("out" ∷ [])

-- `foo.rs` with `mod foo;`, and nothing in the cache
abbrev looping_tools : Tools
looping_tools = record (tools looping) { parse_file = λ text. ok (item (mod_file "foo") no_items) }

abbrev source_world : World
source_world = world_with source_file (file [])

abbrev first_scan : Outcome Failure ProcessedFile
first_scan = processed_file looping_tools info out_dir source_file source_world

looping_scanned :
    (v : World) × (first_scan ≡ returns looping v)
    × (v.disk source_file ≡ source_world.disk source_file)
unfolding processed_file cache_file_computation read_file cached_results_path add_hash_to_path
    file_name file_stem extension set_file_name hex join path_eq bool_eq cache_generated_file
    load_cached_results get_cache_path compute_and_save compute_on_text check_created save_results
    create_output_directory create_dir_all create write parent is_blocked is_ancestor scan_file
looping_scanned = (after first_scan, refl, refl)

process_file-loops_example :
    process_file looping_tools info out_dir 101 source_file source_world
    ≡ fails out_of_fuel looping_scanned.0
unfolding path_eq bool_eq processed_file
process_file-loops_example =
    process_file-loops looping_tools info out_dir true ("src" ∷ []) "foo" [] [] source_world
      looping_scanned.0 looping_scanned.1 looping_scanned.2 100

file_result_stays_example :
    (cache_file_computation healthy looping_tools.file_codec
        (λ bytes. 255)
        (λ bytes. ok "")
        (get_cache_path "tracers-codegen" "0.1.0" out_dir)
        source_file
        "processed-file"
        (λ text. panic "computed twice")
        looping_scanned.0
      ≡ returns looping looping_scanned.0)
    × (exists looping_scanned.0.disk source_file ≡ true)
unfolding processed_file
file_result_stays_example =
    file_result_stays healthy looping_tools.file_codec (λ bytes. 255) (λ bytes. ok "")
      (get_cache_path "tracers-codegen" "0.1.0" out_dir) source_file "processed-file"
      (scan_file looping_tools info out_dir source_file) (λ text. panic "computed twice")
      source_world looping_scanned.1 looping_scanned.2

-- A crate of two files, `lib.rs` with `mod a;`, and `a.rs`, whose scans are in the cache.
abbrev lib_file : FilePath
lib_file = absolute ("src" ∷ "lib.rs" ∷ [])

abbrev a_file : FilePath
a_file = absolute ("src" ∷ ("a" <> ".rs") ∷ [])

abbrev lib_scan : ProcessedFile
lib_scan = record { dependencies = module_named "a" ∷ []; providers = [] }

abbrev decode_scan : Bytes → Fallible ProcessedFile
decode_scan [] = ok plain
decode_scan (byte ∷ bytes) = ok lib_scan

abbrev crate_tools : Tools
crate_tools = record (tools plain) {
  file_codec = record { encode = λ f. []; decode = decode_scan };
}

abbrev crate_disk : Disk
crate_disk = put lib_file (file []) (
    put a_file (file []) (
      put
        (absolute
          ("out" ∷ "tracers-codegen-0.1.0" ∷ "cache" ∷ "lib-ff.rs" ∷ "processed-file.json" ∷ []))
        (file (1 ∷ []))
        (put
          (absolute
            ("out" ∷ "tracers-codegen-0.1.0" ∷ "cache" ∷ "a-ff.rs" ∷ "processed-file.json" ∷ []))
          (file []) (λ p. none))))

abbrev crate_world : World
crate_world = record { disk = crate_disk; out = [] }

abbrev HasCrate : World → Type 0
HasCrate w = w.disk ≡ crate_disk

abbrev IsCrateFile : FilePath → Type 0
IsCrateFile f = (f ≡ lib_file) ⊎ (f ≡ a_file)

abbrev rank : FilePath → ℕ
rank f = if path_eq f lib_file then 1 else 0

lib_scanned :
    (w : World)
    → HasCrate w
    → processed_file crate_tools info out_dir lib_file w ≡ returns lib_scan w
unfolding processed_file cache_file_computation read_file cached_results_path add_hash_to_path
    file_name file_stem extension set_file_name hex join path_eq bool_eq cache_generated_file
    load_cached_results get_cache_path
lib_scanned w h =
    subst
      (λ d.
        processed_file crate_tools info out_dir lib_file (record { disk = d; out = w.out })
        ≡ returns lib_scan (record { disk = d; out = w.out }))
      (sym h) refl

a_scanned :
    (w : World) → HasCrate w → processed_file crate_tools info out_dir a_file w ≡ returns plain w
unfolding processed_file cache_file_computation read_file cached_results_path add_hash_to_path
    file_name file_stem extension set_file_name hex join path_eq bool_eq cache_generated_file
    load_cached_results get_cache_path
a_scanned w h =
    subst
      (λ d.
        processed_file crate_tools info out_dir a_file (record { disk = d; out = w.out })
        ≡ returns plain (record { disk = d; out = w.out }))
      (sym h) refl

a_found : resolve_dependency crate_disk lib_file (module_named "a") ≡ ok a_file
unfolding resolve_dependency find_module pop join path_eq bool_eq
a_found = refl

a_file-below : rank a_file < rank lib_file
unfolding path_eq bool_eq
a_file-below = omega arith

crate-Acyclic : Acyclic crate_tools info out_dir HasCrate IsCrateFile rank
crate-Acyclic = record {
  prints = λ line w h. h;
  scan_keeps = λ f w source h. elim source [
    | inl is_lib ↦ rw (is_lib, lib_scanned w h) h
    | inr is_a ↦ rw (is_a, a_scanned w h) h
  ];
  descends = λ f w v processed source h scanned. elim source [
    | inl is_lib ↦
        let same : lib_scan ≡ processed = cc (lib_scanned w h, rw is_lib at scanned) in
        rw (← same, is_lib)
          (
            (
              λ u dep_file hu found.
                  let there : a_file ≡ dep_file = cc (a_found, rw hu at found) in
                  (inr (sym there), rw (← there) a_file-below),
              tt,
            ),
            tt,
          )
    | inr is_a ↦
        let same : plain ≡ processed = cc (a_scanned w h, rw is_a at scanned) in
        rw (← same) (tt, tt)
  ];
}

process_file-Finished_example :
    Finished HasCrate (process_file crate_tools info out_dir 2 lib_file crate_world)
unfolding path_eq bool_eq
process_file-Finished_example =
    process_file-Finished crate_tools info out_dir HasCrate IsCrateFile rank crate-Acyclic 2
      lib_file crate_world (inl refl) refl (omega arith)
