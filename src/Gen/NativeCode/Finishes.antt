-- ===== src/Gen/NativeCode/Finishes.antt =====
-- The recursion of `process_file` through the source files of a crate (native_code/mod.rs) ends.
use tracers.Prelude.{
  ℕ, zero, suc, ◌<◌, String, List, [], ◌∷◌, ◌++◌, ok, err, ◌≡◌, refl, arith, All, All-imp,
}
use tracers.Std.FilePath.{FilePath}
use tracers.Std.Exec.{World, Outcome, returns, fails, panics, Exec, continue, after}
use tracers.Error.{Failure, Fallible}
use tracers.BuildRs.BuildInfo.{BuildInfo}
use tracers.Spec.Provider.{ProviderSpecification}
use tracers.Deps.{SourceDependency, resolve_dependency}
use tracers.Gen.NativeCode.{
  ProcessedFile, ProcessedProviderTrait, Tools, Unfinished, Libs, after_provider, process_provider,
  process_providers, processed_file, warn_unresolved, follow, process_dependency,
  process_dependencies, warn_failed, after_scan, process_file,
}

-- It returns in a world of this kind, or panics.
abbrev pub Finished {ℓ} : (World → Type 0) → {A : Type ℓ} → Outcome Unfinished A → Type 0
Finished Holds (returns a w) = Holds w
Finished Holds (panics message w) = Unit
Finished Holds (fails e w) = ⊥

abbrev Any : World → Type 0
Any w = Unit

module _ (tools : Tools) (build_info : BuildInfo) (out_dir : FilePath) (Holds : World → Type 0)
    (Source : FilePath → Type 0) (rank : FilePath → ℕ) where
  -- Wherever the dependency is found, it is found in a source of smaller rank.
  abbrev Descends : FilePath → SourceDependency → Type 0
  Descends file dependency =
      (w : World) (dep_file : FilePath)
      → Holds w
      → resolve_dependency w.disk file dependency ≡ ok dep_file
      → Source dep_file × (rank dep_file < rank file)

  abbrev Keeps : ProviderSpecification → Type 0
  Keeps provider =
      (w v : World) (libs : Libs)
      → Holds w
      → process_provider tools build_info out_dir provider w ≡ returns libs v
      → Holds v

  -- What `Holds` says of the world (of its source files and cache entries, for one) is not changed by
  -- printing, by the scan of a source, or by the processing of a provider in one; and every dependency
  -- that the scan of a source gives is found, if at all, in a source of smaller rank.
  pub record Acyclic : Type 0 where
    pub prints :
        (line : String) (w : World) → Holds w → Holds (record w { out = w.out ++ line ∷ [] })
    pub scan_keeps :
        (file : FilePath) (w : World)
        → Source file
        → Holds w
        → Holds (after (processed_file tools build_info out_dir file w))
    pub descends :
        (file : FilePath) (w v : World) (processed : ProcessedFile)
        → Source file
        → Holds w
        → processed_file tools build_info out_dir file w ≡ returns processed v
        → All (Descends file) processed.dependencies × All Keeps processed.providers

  continue-Finished {ℓ κ} :
      {A : Type ℓ} {B : Type κ} (f : A → Exec Unfinished B) (m : Outcome Unfinished A)
      → Finished Holds m
      → ((a : A) (v : World) → Holds v → Finished Holds (f a v))
      → Finished Holds (continue f m)
  continue-Finished f (returns a v) h k = k a v h
  continue-Finished f (panics message v) h k = tt
  continue-Finished f (fails e v) h k = elim h [ ]

  after_provider-Finished :
      (ident : String) (o : Outcome Failure ProcessedProviderTrait)
      → Finished Any (after_provider tools build_info out_dir ident o)
  unfolding after_provider
  after_provider-Finished ident (returns processed w) = tt
  after_provider-Finished ident (panics message w) = tt
  after_provider-Finished ident (fails e w) = tt

  returned-Finished {ℓ} :
      {A : Type ℓ} (m : Outcome Unfinished A)
      → Finished Any m
      → ((a : A) (v : World) → m ≡ returns a v → Holds v)
      → Finished Holds m
  returned-Finished (returns a v) h k = k a v refl
  returned-Finished (panics message v) h k = tt
  returned-Finished (fails e v) h k = h

  process_provider-Finished :
      (provider : ProviderSpecification) (w : World)
      → Keeps provider
      → Holds w
      → Finished Holds (process_provider tools build_info out_dir provider w)
  process_provider-Finished provider w keeps h =
      returned-Finished (process_provider tools build_info out_dir provider w)
        (unfold process_provider in after_provider-Finished provider.item_trait.ident _)
        (λ libs v same. keeps w v libs h same)

  process_providers-Finished :
      (providers : List ProviderSpecification) (w : World)
      → All Keeps providers
      → Holds w
      → Finished Holds (process_providers tools build_info out_dir providers w)
  unfolding process_providers
  process_providers-Finished [] w keep h = h
  process_providers-Finished (provider ∷ rest) w keep h =
      continue-Finished _ _ (process_provider-Finished provider w keep.0 h) (λ libs v h'.
        continue-Finished _ _ (process_providers-Finished rest v keep.1 h') (λ more u h''. h''))

  module _
      (prints : (line : String) (w : World)
        → Holds w
        → Holds (record w { out = w.out ++ line ∷ [] }))
      (process : FilePath → Exec Unfinished Libs) (file : FilePath) where
    -- Wherever the dependency is found, its file can be processed.
    abbrev CanFollow : SourceDependency → Type 0
    CanFollow dependency =
        (w : World) (dep_file : FilePath)
        → Holds w
        → resolve_dependency w.disk file dependency ≡ ok dep_file
        → Finished Holds (process dep_file w)

    follow-Finished :
        (dependency : SourceDependency) (found : Fallible FilePath) (w : World)
        → Holds w
        → ((dep_file : FilePath) → found ≡ ok dep_file → Finished Holds (process dep_file w))
        → Finished Holds (follow tools build_info out_dir process file dependency found w)
    unfolding follow warn_unresolved
    follow-Finished dependency (ok dep_file) w h k = k dep_file refl
    follow-Finished dependency (err e) w h k = prints _ w h

    process_dependencies-Finished :
        (dependencies : List SourceDependency) (w : World)
        → All CanFollow dependencies
        → Holds w
        → Finished Holds (process_dependencies tools build_info out_dir process file dependencies w)
    unfolding process_dependencies process_dependency
    process_dependencies-Finished [] w can h = h
    process_dependencies-Finished (dependency ∷ rest) w can h =
        continue-Finished _ _
          (follow-Finished dependency (resolve_dependency w.disk file dependency) w h
            (λ dep_file found. can.0 w dep_file h found))
          (λ libs v h'.
            continue-Finished _ _ (process_dependencies-Finished rest v can.1 h')
              (λ more u h''. h''))

    after_scan-Finished :
        (o : Outcome Failure ProcessedFile)
        → Holds (after o)
        → ((processed : ProcessedFile) (v : World)
            → o ≡ returns processed v
            → All CanFollow processed.dependencies × All Keeps processed.providers)
        → Finished Holds (after_scan tools build_info out_dir process file o)
    unfolding after_scan warn_failed
    after_scan-Finished (fails e w) h k = prints _ _ (prints _ w h)
    after_scan-Finished (panics message w) h k = tt
    after_scan-Finished (returns processed w) h k =
        let (can, keep) = k processed w refl in
        continue-Finished _ _ (process_dependencies-Finished processed.dependencies w can h)
          (λ libs v h'.
            continue-Finished _ _ (process_providers-Finished processed.providers v keep h')
              (λ more u h''. h''))

  -- Where the sources of a crate have ranks of this kind, processing one with more fuel than its rank
  -- ends: it returns the libraries, in a world of which the same still holds, or it panics, whatever
  -- fails on the way.
  pub process_file-Finished :
      Acyclic
      → (fuel : ℕ) (file : FilePath) (w : World) → Source file
      → Holds w
      → rank file < fuel
      → Finished Holds (process_file tools build_info out_dir fuel file w)
  unfolding process_file
  process_file-Finished acyclic zero file w source h enough = absurd (omega arith)
  process_file-Finished acyclic (suc fuel) file w source h enough =
      after_scan-Finished acyclic.prints (process_file tools build_info out_dir fuel) file
        (processed_file tools build_info out_dir file w) (acyclic.scan_keeps file w source h)
        (λ processed v scanned.
          let (smaller, keep) = acyclic.descends file w v processed source h scanned in
          (
            All-imp (Descends file)
                (CanFollow acyclic.prints (process_file tools build_info out_dir fuel) file)
                processed.dependencies
                (λ dependency below u dep_file hu found.
                  let (is_source, less) = below u dep_file hu found in
                  process_file-Finished acyclic fuel dep_file u is_source hu (omega arith))
                smaller,
            keep,
          ))
