-- ===== src/Cache/Hit.antt =====
-- Lookups that find an entry, and that a result, once returned, stays (tracers-codegen/src/cache.rs).
use tracers.Prelude.{
  String, true, some, ◌≡◌, refl, ◌∙◌, arith, ok, err, Bool-cases, inl, inr, Option-cases,
  Result-cases,
}
use tracers.Std.FilePath.{FilePath, join}
use tracers.Std.FilePath.Parse.{from}
use tracers.Std.Disk.{Bytes, Os, exists, read_file}
use tracers.Std.Disk.Laws.{read_file-same, read_file-exists}
use tracers.Std.Exec.{World, Exec, returns, fails, continue-eq-returns, lift, expect, ◌>>=◌}
use tracers.Std.Exec.Laws.{OnReturn, on_returns, on_fails, continue-OnReturn, OnReturn-returns}
use tracers.Error.{Failure, Fallible}
use tracers.Hashing.{HashCode}
use tracers.Cache.{
  Codec, cached_results_path, cache_generated_file, load_cached_results, compute_and_save,
  check_created, cache_object_computation, get_cached_object_computation, save_results,
  cache_file_computation, compute_on_text,
}

module _ (os : Os) {T : Type 0} (codec : Codec T) where
  -- The entry is looked for here.
  module _ (cache_path : FilePath) (object_name : String) (hash : HashCode) (key : String)
      {results_path : FilePath}
      (located : cached_results_path (from object_name) key hash ≡ some results_path) where
    abbrev entry : FilePath
    entry = join cache_path results_path

    -- An entry that cannot be read back makes every later call fail: nothing is computed again.
    pub corrupt_entry_fails :
        (f : Exec Failure T) (w : World) (bytes : Bytes) (e : Failure)
        → exists w.disk entry ≡ true
        → read_file os w.disk entry ≡ ok bytes
        → codec.decode bytes ≡ err e
        → cache_object_computation os codec cache_path object_name hash key f w ≡ fails e w
    unfolding cache_object_computation cache_generated_file load_cached_results
    corrupt_entry_fails f w bytes e present content bad = rw (located, present, content, bad)

  compute_and_save-path :
      (f : Exec Failure T) (p : FilePath) (w : World) {q : FilePath} {v : World}
      → compute_and_save os codec f p w ≡ returns q v
      → q ≡ p
  unfolding compute_and_save
  compute_and_save-path f p w h =
      let (result, w₁, _, h₁) = continue-eq-returns _ (f w) h in
      let (_, w₂, _, h₂) = continue-eq-returns _ (save_results os codec p result w₁) h₁ in cc

  check_created-entry :
      (p : FilePath) (w : World) {q : FilePath} {v : World}
      → check_created p w ≡ returns q v
      → (q ≡ p) × (exists v.disk q ≡ true)
  unfolding check_created
  check_created-entry p w h = elim (Bool-cases (exists w.disk p)) [
    | inl there ↦ ground (arith, rw there at h)
    | inr missing ↦ cc (rw missing at h)
  ]

  cache_generated_file-entry :
      (cache_path results_path : FilePath) (f : Exec Failure T) (w : World) {q : FilePath}
      {v : World}
      → cache_generated_file cache_path results_path (compute_and_save os codec f) w ≡ returns q v
      → (q ≡ join cache_path results_path) × (exists v.disk (join cache_path results_path) ≡ true)
  unfolding cache_generated_file
  cache_generated_file-entry cache_path results_path f w {q} {v} h =
      elim (Bool-cases (exists w.disk (join cache_path results_path))) [
        | inl present ↦ ground (arith, rw present at h)
        | inr absent ↦
            let (p, u, saved, checked) = continue-eq-returns (check_created) _ (rw absent at h) in
            let (same, there) = check_created-entry p u checked in
            let named : q ≡ join cache_path results_path =
              same ∙ compute_and_save-path f (join cache_path results_path) w saved in
            (named, rw named at there)
      ]

  load-keeps :
      (p : FilePath) (w : World) {r : T} {v : World}
      → load_cached_results os codec p w ≡ returns r v
      → v ≡ w
  unfolding load_cached_results
  load-keeps p w h = ground arith

  abbrev Decoded : T → Type 0
  Decoded r = (bytes : Bytes) × (codec.decode bytes ≡ ok r)

  decoded :
      (bytes : Bytes) (o : Fallible T) (w : World)
      → codec.decode bytes ≡ o
      → OnReturn Decoded (lift o w)
  decoded bytes (ok r) w h = on_returns r w (bytes, h)
  decoded bytes (err e) w h = on_fails e w

  load-Decoded : (p : FilePath) (w : World) → OnReturn Decoded (load_cached_results os codec p w)
  unfolding load_cached_results
  load-Decoded p w =
      continue-OnReturn Decoded _ (lift (read_file os w.disk p) w)
        (λ bytes v. decoded bytes (codec.decode bytes) v refl)

  -- What a computation on a file returns has been read back from the cache.
  pub cache_file_computation-decodes :
      (hash_buf : Bytes → HashCode) (from_utf8 : Bytes → Fallible String)
      (cache_path input_path : FilePath) (key : String) (f : String → Exec Failure T) (w : World)
      {r : T} {v : World}
      → cache_file_computation os codec hash_buf from_utf8 cache_path input_path key f w
        ≡ returns r v
      → (bytes : Bytes) × (codec.decode bytes ≡ ok r)
  unfolding cache_file_computation
  cache_file_computation-decodes hash_buf from_utf8 cache_path input_path key f w h =
      OnReturn-returns Decoded _
        (continue-OnReturn Decoded _ (lift (read_file os w.disk input_path) w) (λ content w₁.
          continue-OnReturn Decoded _
            (expect "path is missing a file name"
              (cached_results_path input_path key (hash_buf content)) w₁)
            (λ results_path w₂.
              continue-OnReturn Decoded (load_cached_results os codec)
                (cache_generated_file cache_path results_path
                  (compute_and_save os codec
                    (compute_on_text os codec from_utf8 results_path content f))
                  w₂)
                load-Decoded)))
        h

  load_again :
      (p q : FilePath) (u : World) {r : T} {v : World}
      → load_cached_results os codec p u ≡ returns r v
      → p ≡ q
      → exists u.disk q ≡ true
      → (load_cached_results os codec q v ≡ returns r v) × (exists v.disk q ≡ true)
  load_again p q u loaded named there = let same = load-keeps p u loaded in (cc, rw same there)

  -- Once a lookup has returned, so does a plain read of its entry, and the lookup with any closure.
  entry_stays :
      (cache_path results_path : FilePath) (f g : Exec Failure T) (w : World) {r : T} {v : World}
      → ◌>>=◌
          (cache_generated_file cache_path results_path (compute_and_save os codec f))
          (load_cached_results os codec)
          w
        ≡ returns r v
      → (load_cached_results os codec (join cache_path results_path) v ≡ returns r v)
        × (◌>>=◌
              (cache_generated_file cache_path results_path (compute_and_save os codec g))
              (load_cached_results os codec)
              v
            ≡ returns r v)
  entry_stays cache_path results_path f g w {r} {v} h =
      let (p, u, made, loaded) = continue-eq-returns (load_cached_results os codec) _ h in
      let (named, there) = cache_generated_file-entry cache_path results_path f w made in
      let (lookup, stays) = load_again p _ u loaded named there in
      (lookup, unfold cache_generated_file in rw stays lookup)

  module _ (cache_path : FilePath) (object_name : String) (hash : HashCode) (key : String) where
    -- What a call returned is returned by the read-only lookup in the world that it left, and by
    -- every later call, whatever its closure, with nothing changed.
    pub cached_result_stays :
        (f g : Exec Failure T) (w : World) {r : T} {v : World}
        → cache_object_computation os codec cache_path object_name hash key f w ≡ returns r v
        → (get_cached_object_computation os codec cache_path object_name hash key v ≡ returns r v)
          × (cache_object_computation os codec cache_path object_name hash key g v ≡ returns r v)
    unfolding cache_object_computation get_cached_object_computation
    cached_result_stays f g w {r} {v} h =
        elim (Option-cases (cached_results_path (from object_name) key hash)) [
          | inl nowhere ↦ cc (rw nowhere at h)
          | inr (results_path, located) ↦
              let (lookup, stays) = entry_stays cache_path results_path f g w (rw located at h) in
              (rw located lookup, rw located stays)
        ]

  module _ (hash_buf : Bytes → HashCode) (from_utf8 : Bytes → Fallible String)
      (cache_path input_path : FilePath) (key : String) where
    abbrev call : (String → Exec Failure T) → Exec Failure T
    call = cache_file_computation os codec hash_buf from_utf8 cache_path input_path key

    -- What a call returned of a file is returned by every later call on that file with the same key,
    -- whatever its computation, with nothing changed, provided that the first call left the file as it
    -- was; and the file is there.
    pub file_result_stays :
        (f g : String → Exec Failure T) (w : World) {r : T} {v : World}
        → call f w ≡ returns r v
        → v.disk input_path ≡ w.disk input_path
        → (call g v ≡ returns r v) × (exists v.disk input_path ≡ true)
    unfolding cache_file_computation
    file_result_stays f g w {r} {v} h kept = elim (Result-cases (read_file os w.disk input_path)) [
      | inr (e, failed) ↦ absurd (cc (rw failed at h))
      | inl (content, is_read) ↦
          let again : read_file os v.disk input_path ≡ ok content =
            read_file-same os v.disk w.disk input_path kept ∙ is_read in
          let there = read_file-exists os v.disk input_path content again in
          elim (Option-cases (cached_results_path input_path key (hash_buf content))) [
            | inl nowhere ↦ absurd (cc (rw (is_read, nowhere) at h))
            | inr (results_path, located) ↦
                let (lookup, stays) =
                  entry_stays cache_path results_path
                    (compute_on_text os codec from_utf8 results_path content f)
                    (compute_on_text os codec from_utf8 results_path content g) w
                    (rw (is_read, located) at h) in
                (rw (again, located) stays, there)
          ]
    ]
