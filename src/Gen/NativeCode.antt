-- ===== src/Gen/NativeCode.antt =====
-- tracers-codegen/src/gen/static/native_code/mod.rs: generating the native wrappers of the providers in
-- the sources of a crate. Parameters are Rust's parser (`syn`), the hash of a file's contents, the
-- reading of UTF-8, the serialisers, and the generators of a target (its `generate_native_lib`).
pub mod Finishes
pub mod Target
pub mod Loops
use tracers.Prelude.{
  ℕ, zero, suc, String, ◌<>◌, Bool, true, false, Option, none, some, List, [], ◌∷◌, ◌++◌, Result,
  ok, err, map_err,
}
use tracers.Std.FilePath
use tracers.Std.FilePath.{FilePath, join}
use tracers.Std.FilePath.Parse.{from}
use tracers.Std.Disk.{Bytes, Os}
use tracers.Std.Environment.{Environment}
use tracers.Std.Exec.{
  World, Outcome, returns, fails, panics, Exec, pure, fail, panic, lift, expect, print, map_failure,
  ◌>>=◌, ◌>>◌,
}
use tracers.Tracing.TracingImplementation
use tracers.Tracing.TracingTarget
use tracers.Tracing.TracingTarget.{TracingTarget}
use tracers.Error.{TracersError, Failure, Fallible, context, failure_text, into_failure}
use tracers.Error.Raise.{provider_trait_not_processed_error}
use tracers.Hashing.{HashCode}
use tracers.Cache.{
  Codec, get_cache_path, cache_file_computation, cache_object_computation,
  get_cached_object_computation,
}
use tracers.BuildRs.BuildInfo.{BuildInfo, var_or_error}
use tracers.Spec.Provider.{ProviderSpecification, Items, Crates, find_providers}
use tracers.Deps.{SourceDependency, module_named, get_dependencies, resolve_dependency}
use tracers.Gen.NativeLib.{NativeLib}

pub record ProcessedFile : Type 0 where
  pub dependencies : List SourceDependency
  pub providers : List ProviderSpecification

pub record ProcessedProviderTrait : Type 0 where
  pub native_libs : List NativeLib

abbrev pub processed_provider_key : String
processed_provider_key = "processed_provider"

-- `CARGO_PKG_NAME` and `CARGO_PKG_VERSION` of tracers-codegen are fixed when it is built.
pub record Tools : Type 0 where
  pub os : Os
  pub crates : Crates
  pub parse_file : String → Fallible Items
  pub hash_buf : Bytes → HashCode
  pub from_utf8 : Bytes → Fallible String
  pub file_codec : Codec ProcessedFile
  pub provider_codec : Codec ProcessedProviderTrait
  pub codegen_name : String
  pub codegen_version : String
  -- The generators of SystemTap and of LTTng
  pub generate_stap : FilePath → ProviderSpecification → Exec TracersError (List NativeLib)
  pub generate_lttng : FilePath → ProviderSpecification → Exec TracersError (List NativeLib)

-- The recursion through the files of a crate has used up its fuel.
pub data Unfinished : Type 0 where
  out_of_fuel : Unfinished

abbrev pub Libs : Type 0
Libs = List NativeLib

-- `{:?}` of a dependency
debug_dependency : SourceDependency → String
debug_dependency (module_named name) = "Mod(\"" <> name <> "\")"

module _ (tools : Tools) where
  unfoldable pub get_processed_provider_info :
      Environment → ProviderSpecification → Exec TracersError ProcessedProviderTrait
  unfolding get_cache_path get_cached_object_computation provider_trait_not_processed_error
  get_processed_provider_info env provider = do
    out_dir ← lift (var_or_error env "OUT_DIR")
    λ w. map_failure (provider_trait_not_processed_error provider.item_trait.ident) (
        get_cached_object_computation tools.os tools.provider_codec
          (get_cache_path tools.codegen_name tools.codegen_version (from out_dir)) provider.name
          provider.hash processed_provider_key w)

  module _ (build_info : BuildInfo) (out_dir : FilePath) where
    abbrev pub target : TracingTarget
    target = TracingImplementation.tracing_target build_info.implementation

    abbrev pub cache_dir : FilePath
    cache_dir = get_cache_path tools.codegen_name tools.codegen_version out_dir

    -- `create_native_code_generator`, and the generator's `generate_native_lib`
    generate_native_lib : ProviderSpecification → Exec TracersError Libs
    unfolding TracingImplementation.tracing_target TracingImplementation.as_ref
    generate_native_lib provider = elim target [
      | TracingTarget.stap ↦ tools.generate_stap out_dir provider
      | TracingTarget.lttng ↦ tools.generate_lttng out_dir provider
      | _ ↦ panic (
          TracingImplementation.as_ref build_info.implementation
          <> " should never be passed to this function")
    ]

    -- The closure given to the cache; `?` turns the error into a `failure::Error`.
    process_trait : ProviderSpecification → Exec Failure ProcessedProviderTrait
    unfolding generate_native_lib into_failure
    process_trait provider = do
      libs ← λ w. map_failure into_failure (generate_native_lib provider w)
      pure (record { native_libs = libs })

    after_provider : String → Outcome Failure ProcessedProviderTrait → Outcome Unfinished Libs
    after_provider ident (returns processed w) = returns processed.native_libs w
    after_provider ident (panics message w) = panics message w
    after_provider ident (fails e w) =
        (do
          print (
              "cargo:warning=Error generating tracing code for '"
              <> ident
              <> "': "
              <> failure_text e)
          print ("cargo:warning=Tracing may not be available for " <> ident)
          pure [])
          w

    unfoldable pub process_provider : ProviderSpecification → Exec Unfinished Libs
    unfolding after_provider process_trait get_cache_path cache_object_computation
    process_provider provider w = after_provider provider.item_trait.ident (
        cache_object_computation tools.os tools.provider_codec cache_dir provider.name provider.hash
          processed_provider_key (process_trait provider) w)

    unfoldable pub process_providers : List ProviderSpecification → Exec Unfinished Libs
    unfolding process_provider
    process_providers [] = pure []
    process_providers (provider ∷ rest) = do
      libs ← process_provider provider
      more ← process_providers rest
      pure (libs ++ more)

    -- The closure of `process_file`
    unfoldable pub scan_file : FilePath → String → Exec Failure ProcessedFile
    unfolding get_dependencies find_providers TracingTarget.as_ref
        TracingImplementation.tracing_target
    scan_file file text = do
      print (
          "Generating "
          <> TracingTarget.as_ref target
          <> " implementation for target "
          <> FilePath.display file)
      ast ← λ w. lift (map_err (context "Parsing source file") (tools.parse_file text)) w
      providers ←
          expect "Failed parsing attribute metadata"
            (find_providers tools.crates build_info.package_name ast)
      pure (record { dependencies = get_dependencies ast; providers = providers })

    unfoldable pub processed_file : FilePath → Exec Failure ProcessedFile
    unfolding scan_file get_cache_path cache_file_computation
    processed_file file =
        cache_file_computation tools.os tools.file_codec tools.hash_buf tools.from_utf8 cache_dir
          file "processed-file" (scan_file file)

    warn_unresolved : FilePath → SourceDependency → Exec Unfinished Libs
    unfolding debug_dependency
    warn_unresolved file dependency = do
      print (
          "cargo:warning=Unable to resove dependency "
          <> debug_dependency dependency
          <> " in "
          <> FilePath.display file
          <> "; any tracing providers it may contain will not be processed")
      pure []

    -- `process` is the recursive call.
    follow :
        (FilePath → Exec Unfinished Libs)
        → FilePath
        → SourceDependency
        → Fallible FilePath
        → Exec Unfinished Libs
    unfolding warn_unresolved
    follow process file dependency (ok dep_file) w = process dep_file w
    follow process file dependency (err e) w = warn_unresolved file dependency w

    process_dependency :
        (FilePath → Exec Unfinished Libs) → FilePath → SourceDependency → Exec Unfinished Libs
    unfolding follow resolve_dependency
    process_dependency process file dependency w =
        follow process file dependency (resolve_dependency w.disk file dependency) w

    unfoldable pub process_dependencies :
        (FilePath → Exec Unfinished Libs) → FilePath → List SourceDependency → Exec Unfinished Libs
    unfolding process_dependency
    process_dependencies process file [] = pure []
    process_dependencies process file (dependency ∷ rest) = do
      libs ← process_dependency process file dependency
      more ← process_dependencies process file rest
      pure (libs ++ more)

    warn_failed : FilePath → Failure → Exec Unfinished Libs
    warn_failed file e = do
      print ("cargo:warning=Error processing '" <> FilePath.display file <> "': " <> failure_text e)
      print (
          "cargo:warning=Code generation failed for '"
          <> FilePath.display file
          <> "'.  Tracing may not be available.")
      pure []

    after_scan :
        (FilePath → Exec Unfinished Libs)
        → FilePath
        → Outcome Failure ProcessedFile
        → Outcome Unfinished Libs
    unfolding warn_failed process_dependencies process_providers
    after_scan process file (fails e w) = warn_failed file e w
    after_scan process file (panics message w) = panics message w
    after_scan process file (returns processed w) =
        (do
          libs ← process_dependencies process file processed.dependencies
          more ← process_providers processed.providers
          pure (libs ++ more))
          w

    unfoldable pub process_file : ℕ → FilePath → Exec Unfinished Libs
    unfolding after_scan processed_file
    process_file zero file w = fails out_of_fuel w
    process_file (suc fuel) file w = after_scan (process_file fuel) file (processed_file file w)

    process_targets : ℕ → FilePath → List FilePath → Exec Unfinished Libs
    unfolding process_file
    process_targets fuel manifest_dir [] = pure []
    process_targets fuel manifest_dir (t ∷ rest) = do
      print ("Processing target " <> FilePath.display (join manifest_dir t))
      libs ← process_file fuel (join manifest_dir t)
      more ← process_targets fuel manifest_dir rest
      pure (libs ++ more)

    -- The `assert!` on static tracing is the first test.
    unfoldable pub generate_native_code : ℕ → FilePath → List FilePath → Exec Unfinished Libs
    unfolding process_targets TracingImplementation.is_static TracingImplementation.tracing_target
        TracingTarget.as_ref
    generate_native_code fuel manifest_dir targets =
        elim (TracingImplementation.is_static build_info.implementation) [
          | false ↦ panic "assertion failed: tracing_type() == TracingType::Static"
          | true ↦ elim target [
            | TracingTarget.stap ↦ process_targets fuel manifest_dir targets
            | TracingTarget.lttng ↦ process_targets fuel manifest_dir targets
            | other ↦ (do
              print ("No native code needed for " <> TracingTarget.as_ref other <> " tracing")
              pure [])
          ]
        ]
