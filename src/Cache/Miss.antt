-- ===== src/Cache/Miss.antt =====
-- Lookups that find no entry: the computation is run and its result is kept
-- (tracers-codegen/src/cache.rs).
use tracers.Prelude.{String, true, false, none, some, [], ◌<>◌, ◌≡◌, ok, err}
use tracers.Std.FilePath
use tracers.Std.FilePath.{FilePath, join, parent}
use tracers.Std.FilePath.Parse.{from}
use tracers.Std.Disk.{
  Bytes, file, Disk, Os, put, exists, has_directory, parent_is_there, is_blocked, write, read_file,
}
use tracers.Std.Disk.Laws.{
  with_directories, create_dir_all_lem, has_directory-with_directories, create_lem, put_self,
  read_file-file, free-with_directories, write_lem,
}
use tracers.Std.Exec.{World, Exec, Outcome, returns, fails, report, on_disk}
use tracers.Error.{Failure, format_err, failure_text}
use tracers.Hashing.{HashCode}
use tracers.Cache.Hit.{corrupt_entry_fails}
use tracers.Cache.{
  Codec, cached_results_path, cache_generated_file, load_cached_results, compute_and_save,
  check_created, cache_object_computation, save_results, create_output_directory,
}

-- The disk after a save at `p` under `dir` of which `kept` reached the file.
abbrev pub saved : FilePath → FilePath → Bytes → Disk → Disk
saved p dir kept disk = put p (file kept) (put p (file []) (with_directories dir disk))

abbrev pub save_error : FilePath → Failure → Failure
save_error p e =
    format_err ("Error saving cached results to " <> FilePath.display p <> ": " <> failure_text e)

module _ (os : Os) {T : Type 0} (codec : Codec T) (p : FilePath) {dir : FilePath}
    (below : parent p ≡ some dir) (may_mkdir : os.mkdir_failure dir ≡ none)
    (may_create : os.create_failure p ≡ none) where
  create_output_directory_lem :
      (w : World)
      → is_blocked w.disk dir.absolute [] dir.components ≡ false
      → create_output_directory os (parent p) w
        ≡ returns tt (record w { disk = with_directories dir w.disk })
  unfolding create_output_directory
  create_output_directory_lem w clear =
      rw (below, create_output_directory)
        (rw (create_dir_all_lem os w.disk dir may_mkdir clear, on_disk))

  -- What a save does where the path to `p` is clear: the outcome is the write's.
  save_results_lem :
      (r : T) (w : World)
      → is_blocked w.disk dir.absolute [] dir.components ≡ false
      → has_directory (with_directories dir w.disk) p ≡ false
      → save_results os codec p r w
        ≡ report
            (save_error p)
            w
            (write os (put p (file []) (with_directories dir w.disk)) p (codec.encode r))
  unfolding save_results
  save_results_lem r w clear free =
      rw (create_output_directory_lem w clear, save_results)
        (rw (create_lem os (with_directories dir w.disk) p may_create free there, on_disk))
    where
      there : parent_is_there (with_directories dir w.disk) p ≡ true
      there =
          rw (below, parent_is_there)
            (has_directory-with_directories w.disk dir.absolute dir.components clear)

module _ (os : Os) {T : Type 0} (codec : Codec T) (cache_path : FilePath) (object_name : String)
    (hash : HashCode) (key : String) {results_path : FilePath}
    (located : cached_results_path (from object_name) key hash ≡ some results_path)
    (f : Exec Failure T) (w : World)
    (absent : exists w.disk (join cache_path results_path) ≡ false) where
  abbrev entry : FilePath
  entry = join cache_path results_path

  abbrev call : Exec Failure T → World → Outcome Failure T
  call = cache_object_computation os codec cache_path object_name hash key

  module _ {dir : FilePath} (below : parent entry ≡ some dir)
      (may_mkdir : os.mkdir_failure dir ≡ none) (may_create : os.create_failure entry ≡ none)
      (may_open : os.open_failure entry ≡ none) (r : T) (w₁ : World) (computed : f w ≡ returns r w₁)
      (still_absent : exists w₁.disk entry ≡ false)
      (clear : is_blocked w₁.disk dir.absolute [] dir.components ≡ false) where
    free : has_directory (with_directories dir w₁.disk) entry ≡ false
    free = free-with_directories w₁.disk entry.absolute entry.components below still_absent

    saves :
        save_results os codec entry r w₁
        ≡ report
            (save_error entry)
            w₁
            (write os (put entry (file []) (with_directories dir w₁.disk)) entry (codec.encode r))
    saves = save_results_lem os codec entry below may_mkdir may_create r w₁ clear free

    abbrev after_write : Bytes → World
    after_write kept = record w₁ { disk = saved entry dir kept w₁.disk }

    entry-after_write :
        (kept : Bytes)
        → (exists (after_write kept).disk entry ≡ true)
          × (read_file os (after_write kept).disk entry ≡ ok kept)
    entry-after_write kept =
        let there : (after_write kept).disk entry ≡ some (file kept) =
          put_self entry (file kept) (put entry (file []) (with_directories dir w₁.disk)) in
        (rw (there, exists), read_file-file os (after_write kept).disk entry kept may_open there)

    -- A result that is computed is written to the entry's file, and returned from there.
    pub fresh_result_is_kept :
        os.stored entry (codec.encode r) ≡ (none, codec.encode r)
        → codec.decode (codec.encode r) ≡ ok r
        → (call f w ≡ returns r (after_write (codec.encode r)))
          × ((after_write (codec.encode r)).disk entry ≡ some (file (codec.encode r)))
    unfolding cache_object_computation cache_generated_file compute_and_save check_created
        load_cached_results
    fresh_result_is_kept whole round =
        let (present, content) = entry-after_write (codec.encode r) in
        (
          rw (located, absent, computed, saves, write_lem os _ entry (codec.encode r) whole)
              (rw (present, check_created) (rw (content, round))),
          put_self entry _ (put entry (file []) (with_directories dir w₁.disk)),
        )

    -- A write that fails part of the way leaves an entry; if it cannot be read back, every later
    -- call fails on it, whatever its computation.
    pub interrupted_write_sticks :
        (e e' : Failure) (kept : Bytes)
        → os.stored entry (codec.encode r) ≡ (some e, kept)
        → codec.decode kept ≡ err e'
        → (call f w ≡ fails (save_error entry e) (after_write kept))
          × ((g : Exec Failure T) → call g (after_write kept) ≡ fails e' (after_write kept))
    unfolding cache_object_computation cache_generated_file compute_and_save check_created
        load_cached_results
    interrupted_write_sticks e e' kept cut bad =
        let (present, content) = entry-after_write kept in
        (
          rw (located, absent, computed, saves, write_lem os _ entry (codec.encode r) cut),
          λ g.
              corrupt_entry_fails os codec cache_path object_name hash key located g
                (after_write kept) kept e' present content bad,
        )
