-- ===== src/Gen/NativeCode/Loops.antt =====
-- A file with a module of its own name makes `process_file` (native_code/mod.rs) run forever.
use tracers.Prelude.{ℕ, zero, suc, String, ◌<>◌, Bool, true, List, [], ◌∷◌, ◌++◌, ◌≡◌, refl, ap}
use tracers.Std.FilePath.{FilePath}
use tracers.Std.Disk.{exists}
use tracers.Std.Exec.{World, returns, fails}
use tracers.Cache.Hit.{file_result_stays}
use tracers.BuildRs.BuildInfo.{BuildInfo}
use tracers.Spec.Provider.{ProviderSpecification}
use tracers.Deps.{SourceDependency, module_named}
use tracers.Deps.Resolution.{find_module_self}
use tracers.Gen.NativeCode.{
  Tools, ProcessedFile, cache_dir, scan_file, out_of_fuel, processed_file, follow,
  process_dependency, process_dependencies, after_scan, process_file,
}

module _ (tools : Tools) (build_info : BuildInfo) (out_dir : FilePath) (absolute : Bool)
    (dirs : List String) (name : String) where
  abbrev source : FilePath
  source = record { absolute = absolute; components = dirs ++ (name <> ".rs") ∷ [] }

  follows_itself :
      (fuel : ℕ) (w : World)
      → exists w.disk source ≡ true
      → process_dependency tools build_info out_dir
          (process_file tools build_info out_dir fuel)
          source
          (module_named name)
          w
        ≡ process_file tools build_info out_dir fuel source w
  unfolding process_dependency follow
  follows_itself fuel w there =
      ap
        (λ found.
          follow tools build_info out_dir (process_file tools build_info out_dir fuel) source
            (module_named name) found w)
        (find_module_self w.disk absolute dirs name there)

  abbrev with_itself : List SourceDependency → List ProviderSpecification → ProcessedFile
  with_itself others providers = record {
    dependencies = module_named name ∷ others;
    providers = providers;
  }

  -- Once the scan is in the cache, nothing changes any more.
  loops_on :
      (others : List SourceDependency) (providers : List ProviderSpecification) (v : World)
      → exists v.disk source ≡ true
      → processed_file tools build_info out_dir source v ≡ returns (with_itself others providers) v
      → (fuel : ℕ) → process_file tools build_info out_dir fuel source v ≡ fails out_of_fuel v
  unfolding process_file after_scan process_dependencies
  loops_on others providers v there scanned zero = refl
  loops_on others providers v there scanned (suc fuel) =
      rw (scanned, after_scan)
        (rw (follows_itself fuel v there, process_dependencies)
          (rw (loops_on others providers v there scanned fuel)))

  -- A file `name.rs` whose first `mod` item is `mod name;`, as Rust allows for the module in
  -- `name/name.rs`, is found to be its own dependency. Where its scan returns, from the cache or not,
  -- and leaves the file as it was, processing it uses up whatever fuel is given.
  pub process_file-loops :
      (others : List SourceDependency) (providers : List ProviderSpecification) (w v : World)
      → processed_file tools build_info out_dir source w ≡ returns (with_itself others providers) v
      → v.disk source ≡ w.disk source
      → (fuel : ℕ) → process_file tools build_info out_dir (suc fuel) source w ≡ fails out_of_fuel v
  unfolding process_file processed_file after_scan process_dependencies
  process_file-loops others providers w v scanned kept fuel =
      let (again, there) =
        file_result_stays tools.os tools.file_codec tools.hash_buf tools.from_utf8
          (cache_dir tools build_info out_dir) source "processed-file"
          (scan_file tools build_info out_dir source) (scan_file tools build_info out_dir source) w
          scanned kept in
      rw (scanned, after_scan)
        (rw (follows_itself fuel v there, process_dependencies)
          (rw (loops_on others providers v there again fuel)))
