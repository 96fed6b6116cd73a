-- ===== src/Tests/Caching.antt =====
-- Instances for the cache and the file names with hashes.
use tracers.Prelude.{ℕ, none, some, [], ◌∷◌, ◌≡◌, refl}
use tracers.Prelude.Radix.{hex}
use tracers.Std.FilePath.{
  FilePath, join, file_name, file_stem, set_file_name, relative, parent, extension,
}
use tracers.Std.FilePath.Parse.{from}
use tracers.Std.FilePath.Equality.{path_eq, bool_eq}
use tracers.Std.Disk.{file, read_file, is_blocked}
use tracers.Std.Exec.{World, Exec, pure, fail, Outcome, returns, fails}
use tracers.Error.{Failure, format_err}
use tracers.Hashing.{add_hash_to_path}
use tracers.Hashing.Laws.{add_hash_to_path_inj}
use tracers.Cache.{
  cached_results_path, cache_object_computation, get_cached_object_computation,
  cache_generated_file, load_cached_results,
}
use tracers.Cache.Hit.{cached_result_stays}
use tracers.Cache.Miss.{fresh_result_is_kept, interrupted_write_sticks, saved, save_error}
use tracers.Tests.Data.{healthy, full, numbers, empty_world, absolute, world_with}

abbrev cache_root : FilePath
cache_root = absolute ("cache" ∷ [])

abbrev entry_path : FilePath
entry_path = absolute ("cache" ∷ "my_provider-ff" ∷ "key.json" ∷ [])

abbrev kept_world : World
kept_world = world_with entry_path (file (7 ∷ []))

abbrev seven : Exec Failure ℕ
seven = pure 7

abbrev broken : Exec Failure ℕ
broken = fail (format_err "no compiler")

abbrev results : FilePath
results = relative ("my_provider-ff" ∷ "key.json" ∷ [])

located : cached_results_path (from "my_provider") "key" 255 ≡ some results
unfolding cached_results_path from add_hash_to_path file_stem extension set_file_name join hex
    file_name
located = refl

seven_is_kept :
    cache_object_computation healthy numbers cache_root "my_provider" 255 "key" broken kept_world
    ≡ returns 7 kept_world
unfolding cache_object_computation cached_results_path from add_hash_to_path file_stem extension
    set_file_name join hex file_name path_eq bool_eq cache_generated_file load_cached_results
    read_file
seven_is_kept = refl

cached_result_stays_example :
    (get_cached_object_computation healthy numbers cache_root "my_provider" 255 "key" kept_world
      ≡ returns 7 kept_world)
    × (cache_object_computation healthy numbers cache_root "my_provider" 255 "key" seven kept_world
        ≡ returns 7 kept_world)
cached_result_stays_example =
    cached_result_stays healthy numbers cache_root "my_provider" 255 "key" broken seven kept_world
      seven_is_kept

abbrev call : Exec Failure ℕ → World → Outcome Failure ℕ
call = cache_object_computation healthy numbers cache_root "my_provider" 255 "key"

abbrev entry_dir : FilePath
entry_dir = absolute ("cache" ∷ "my_provider-ff" ∷ [])

fresh_result_is_kept_example :
    (call seven empty_world
      ≡ returns 7 (record empty_world {
        disk = saved (join cache_root results) entry_dir (7 ∷ []) (λ p. none);
      }))
    × (saved (join cache_root results) entry_dir (7 ∷ []) (λ p. none) (join cache_root results)
        ≡ some (file (7 ∷ [])))
unfolding join parent is_blocked
fresh_result_is_kept_example =
    fresh_result_is_kept healthy numbers cache_root "my_provider" 255 "key" located seven
      empty_world refl refl refl refl refl 7 empty_world refl refl refl refl refl

interrupted_write_sticks_example :
    (cache_object_computation full numbers cache_root "my_provider" 255 "key" seven empty_world
      ≡ fails
          (save_error (join cache_root results) (format_err "No space left on device"))
          (record empty_world { disk = saved (join cache_root results) entry_dir [] (λ p. none) }))
    × ((g : Exec Failure ℕ)
        → cache_object_computation full numbers cache_root "my_provider" 255 "key" g
            (record empty_world { disk = saved (join cache_root results) entry_dir [] (λ p. none) })
          ≡ fails (format_err "EOF while parsing a value") (record empty_world {
            disk = saved (join cache_root results) entry_dir [] (λ p. none);
          }))
unfolding join parent is_blocked
interrupted_write_sticks_example =
    interrupted_write_sticks full numbers cache_root "my_provider" 255 "key" located seven
      empty_world refl refl refl refl refl 7 empty_world refl refl refl
      (format_err "No space left on device") (format_err "EOF while parsing a value") [] refl refl

abbrev library : FilePath
library = absolute ("foo" ∷ "baz.lib" ∷ [])

add_hash_to_path_inj_example : ◌≡◌ {A = ℕ} 10 10
unfolding file_stem
add_hash_to_path_inj_example = add_hash_to_path_inj library 10 10 refl refl
