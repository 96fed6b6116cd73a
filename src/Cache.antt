-- ===== src/Cache.antt =====
-- tracers-codegen/src/cache.rs: results of computations, kept in files under a cache directory.
-- The serialiser is `serde_json`, a parameter; so is the hash of a file's contents (`twox_hash`).
pub mod Hit
pub mod Miss
use tracers.Prelude.{
  ℕ, String, ◌<>◌, Option, none, some, List, [], ◌∷◌, if◌then◌else◌, Result, ok, err, map_err, Bool,
  true, false,
}
use tracers.Std.FilePath
use tracers.Std.FilePath.{FilePath, join, relative, parent, file_name}
use tracers.Std.FilePath.Parse.{from}
use tracers.Std.Disk.{Bytes, Os, exists, read_file, create, write, create_dir_all}
use tracers.Std.Exec.{World, Exec, pure, fail, lift, expect, on_disk, ◌>>=◌, ◌>>◌}
use tracers.Error.{Failure, Fallible, format_err, failure_text}
use tracers.Hashing.{HashCode, add_hash_to_path}

-- `Serialize` and `DeserializeOwned`, by way of JSON.
pub record Codec (T : Type 0) : Type 0 where
  pub encode : T → Bytes
  pub decode : Bytes → Fallible T

-- The directory of a hash within the cache and the file of a key in it; `none` is a panic.
unfoldable pub cached_results_path : FilePath → String → HashCode → Option FilePath
cached_results_path input_path key hash = elim (add_hash_to_path input_path hash) [
  | none ↦ none
  | some input_with_hash ↦ elim (file_name input_with_hash) [
    | none ↦ none
    | some input_name ↦ some (join (relative (input_name ∷ [])) (relative ((key <> ".json") ∷ [])))
  ]
]

-- `CARGO_PKG_NAME` and `CARGO_PKG_VERSION` of this crate at its own build are the arguments.
unfoldable pub get_cache_path : String → String → FilePath → FilePath
get_cache_path pkg_name pkg_version root =
    join (join root (relative ((pkg_name <> "-" <> pkg_version) ∷ []))) (relative ("cache" ∷ []))

unfoldable pub check_created : FilePath → Exec Failure FilePath
check_created created w =
    if exists w.disk created
    then pure created w
    else fail
        (format_err
          ("The result file " <> FilePath.display created <> " was not created as expected"))
        w

-- `f` gets the path that is missing; the file must be there when `f` has returned.
unfoldable pub cache_generated_file :
    FilePath → FilePath → (FilePath → Exec Failure FilePath) → Exec Failure FilePath
unfolding check_created
cache_generated_file cache_path results_path f w =
    let abs_path = join cache_path results_path in
    if exists w.disk abs_path
    then pure abs_path w
    else (do created ← f abs_path; check_created created) w

-- `results_path.parent().map(…).unwrap_or(Ok(()))`
unfoldable pub create_output_directory : Os → Option FilePath → Exec Failure (Unit {0})
create_output_directory os none = pure tt
create_output_directory os (some p) =
    on_disk
      (λ e.
        format_err
          ("Error creating output directory " <> FilePath.display p <> ": " <> failure_text e))
      (λ disk. create_dir_all os disk p)

module _ (os : Os) {T : Type 0} (codec : Codec T) where
  unfoldable pub load_cached_results : FilePath → Exec Failure T
  load_cached_results results_path = do
    bytes ← λ w. lift (read_file os w.disk results_path) w
    lift (codec.decode bytes)

  -- Makes sure that the directory exists, creates the file, and writes it.
  unfoldable pub save_results : FilePath → T → Exec Failure (Unit {0})
  save_results results_path results = do
    create_output_directory os (parent results_path)
    on_disk
        (λ e. format_err (
          "Error creating cached results file "
          <> FilePath.display results_path
          <> ": "
          <> failure_text e))
        (λ disk. create os disk results_path)
    on_disk
        (λ e. format_err (
          "Error saving cached results to "
          <> FilePath.display results_path
          <> ": "
          <> failure_text e))
        (λ disk. write os disk results_path (codec.encode results))

  unfoldable pub compute_and_save : Exec Failure T → FilePath → Exec Failure FilePath
  compute_and_save f abs_path = do result ← f; save_results abs_path result; pure abs_path

  unfoldable pub cache_object_computation :
      FilePath → String → HashCode → String → Exec Failure T → Exec Failure T
  unfolding compute_and_save
  cache_object_computation cache_path object_name hash key f = do
    results_path ←
        expect "path is missing a file name" (cached_results_path (from object_name) key hash)
    abs_path ← cache_generated_file cache_path results_path (compute_and_save f)
    load_cached_results abs_path

  unfoldable pub get_cached_object_computation :
      FilePath → String → HashCode → String → Exec Failure T
  get_cached_object_computation cache_path object_name hash key = do
    results_path ←
        expect "path is missing a file name" (cached_results_path (from object_name) key hash)
    load_cached_results (join cache_path results_path)

  -- The closure that `cache_file_computation` passes on: `f` on the contents as text.
  unfoldable pub compute_on_text :
      (Bytes → Fallible String) → FilePath → Bytes → (String → Exec Failure T) → Exec Failure T
  compute_on_text from_utf8 results_path content f = do
    text ← lift (
        map_err
          (λ e. format_err (
            "Input file "
            <> FilePath.display results_path
            <> " contains invalid UTF-8 text: "
            <> failure_text e))
          (from_utf8 content))
    f text

  -- `hash_buf` hashes bytes and `from_utf8` reads them as text.
  unfoldable pub cache_file_computation :
      (Bytes → HashCode)
      → (Bytes → Fallible String)
      → FilePath
      → FilePath
      → String
      → (String → Exec Failure T)
      → Exec Failure T
  unfolding compute_and_save compute_on_text
  cache_file_computation hash_buf from_utf8 cache_path input_path key f = do
    content ← λ w. lift (read_file os w.disk input_path) w
    results_path ←
        expect "path is missing a file name" (cached_results_path input_path key (hash_buf content))
    abs_path ←
        cache_generated_file cache_path results_path
          (compute_and_save (compute_on_text from_utf8 results_path content f))
    load_cached_results abs_path
