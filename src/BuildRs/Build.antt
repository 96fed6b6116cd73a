-- ===== src/BuildRs/Build.antt =====
-- The build scripts of tracers-codegen/src/build_rs.rs: of `tracers` itself, and of its users.
-- `cargo metadata` (cargo.rs) is a parameter, as are the tools of the native code generator.
use Prim.Native.String.{compare}
use Prim.Native.Nat.{Ordering, compare as compare_numbers}
use tracers.Prelude.{
  ℕ, String, ◌<>◌, Bool, true, false, List, [], ◌∷◌, ◌++◌, ok, err, map_err, if◌then◌else◌, str_eq,
}
use tracers.Std.FilePath
use tracers.Std.FilePath.{FilePath, join, relative}
use tracers.Std.FilePath.Equality.{path_eq}
use tracers.Std.FilePath.Parse.{from}
use tracers.Std.Environment.{Environment, var_with_context}
use tracers.Std.Exec.{
  Outcome, returns, fails, panics, Exec, pure, lift, expect, print, map_failure, ◌>>=◌, ◌>>◌,
}
use tracers.Tracing.TracingType
use tracers.Tracing.TracingImplementation
use tracers.Tracing.TracingImplementation.{TracingImplementation}
use tracers.Error
use tracers.Error.{TracersError, TracersResult, Fallible, Failure, context, format_err}
use tracers.Error.Raise.{other_error}
use tracers.Cache.{Codec}
use tracers.BuildRs.Features
use tracers.BuildRs.Features.{FeatureFlags}
use tracers.BuildRs.Select.{select_implementation}
use tracers.BuildRs.BuildInfo
use tracers.BuildRs.BuildInfo.{BuildInfo, get_build_path, load, save, var_or_error}
use tracers.Gen.NativeLib.{
  NativeLib, static_wrapper_lib, static_wrapper_lib_path, dynamic_support_lib, static_support_lib,
  support_lib_path,
}
use tracers.Gen.NativeCode
use tracers.Gen.NativeCode.{Tools, Unfinished, Libs}

-- A component of a path in the order of `Path`: the root stands before every name.
compare_components : List String → List String → Ordering
compare_components [] [] = Ordering.eq
compare_components [] (d ∷ ds) = Ordering.lt
compare_components (c ∷ cs) [] = Ordering.gt
compare_components (c ∷ cs) (d ∷ ds) = elim (compare c d) [
  | Ordering.eq ↦ compare_components cs ds
  | Ordering.lt ↦ Ordering.lt
  | Ordering.gt ↦ Ordering.gt
]

compare_rooted : Bool → Bool → List String → List String → Ordering
unfolding compare_components
compare_rooted true true cs ds = compare_components cs ds
compare_rooted false false cs ds = compare_components cs ds
compare_rooted true false cs [] = Ordering.gt
compare_rooted true false cs (d ∷ ds) = Ordering.lt
compare_rooted false true [] ds = Ordering.lt
compare_rooted false true (c ∷ cs) ds = Ordering.gt

compare_paths : FilePath → FilePath → Ordering
unfolding compare_rooted
compare_paths p q = compare_rooted p.absolute q.absolute p.components q.components

-- `derive(PartialOrd)`: by the variant's place, then by its value.
place : NativeLib → ℕ
place (static_wrapper_lib _) = 0
place (static_wrapper_lib_path _) = 1
place (dynamic_support_lib _) = 2
place (static_support_lib _) = 3
place (support_lib_path _) = 4

unfoldable pub partial_cmp : NativeLib → NativeLib → Ordering
unfolding compare_paths place
partial_cmp (static_wrapper_lib s) (static_wrapper_lib t) = compare s t
partial_cmp (static_wrapper_lib_path p) (static_wrapper_lib_path q) = compare_paths p q
partial_cmp (dynamic_support_lib s) (dynamic_support_lib t) = compare s t
partial_cmp (static_support_lib s) (static_support_lib t) = compare s t
partial_cmp (support_lib_path p) (support_lib_path q) = compare_paths p q
partial_cmp a b = compare_numbers (place a) (place b)

-- `derive(PartialEq)`
unfoldable pub lib_eq : NativeLib → NativeLib → Bool
lib_eq (static_wrapper_lib s) (static_wrapper_lib t) = str_eq s t
lib_eq (static_wrapper_lib_path p) (static_wrapper_lib_path q) = path_eq p q
lib_eq (dynamic_support_lib s) (dynamic_support_lib t) = str_eq s t
lib_eq (static_support_lib s) (static_support_lib t) = str_eq s t
lib_eq (support_lib_path p) (support_lib_path q) = path_eq p q
lib_eq _ _ = false

-- `Vec::sort_by` of the standard library, which is stable: x stands before y ∷ ys unless it is greater than y.
unfoldable pub put : Ordering → NativeLib → NativeLib → Libs → Libs → Libs
put Ordering.gt x y ys rest = y ∷ rest
put Ordering.eq x y ys rest = x ∷ y ∷ ys
put Ordering.lt x y ys rest = x ∷ y ∷ ys

unfoldable pub insert : NativeLib → Libs → Libs
unfolding partial_cmp put
insert x [] = x ∷ []
insert x (y ∷ ys) = put (partial_cmp x y) x y ys (insert x ys)

unfoldable pub sort : Libs → Libs
unfolding insert
sort [] = []
sort (x ∷ xs) = insert x (sort xs)

-- `Vec::dedup` of the standard library: of equal neighbours the first is kept.
unfoldable pub dedup_from : NativeLib → Libs → Libs
unfolding lib_eq
dedup_from x [] = x ∷ []
dedup_from x (y ∷ ys) =
    let same = dedup_from x ys in
    let next = dedup_from y ys in if lib_eq x y then same else x ∷ next

unfoldable pub dedup : Libs → Libs
unfolding dedup_from
dedup [] = []
dedup (x ∷ xs) = dedup_from x xs

-- The line for Cargo
unfoldable pub link_lines : Libs → List String
link_lines [] = []
link_lines (static_wrapper_lib _ ∷ rest) = link_lines rest
link_lines (static_wrapper_lib_path p ∷ rest) =
    ("cargo:rustc-link-search=native=" <> FilePath.display p) ∷ link_lines rest
link_lines (support_lib_path p ∷ rest) =
    ("cargo:rustc-link-search=native=" <> FilePath.display p) ∷ link_lines rest
link_lines (dynamic_support_lib lib ∷ rest) =
    ("cargo:rustc-link-lib=dylib=" <> lib) ∷ link_lines rest
link_lines (static_support_lib lib ∷ rest) =
    ("cargo:rustc-link-lib=static=" <> lib) ∷ link_lines rest

unfoldable pub print_all {ℓ} : {E : Type ℓ} → List String → Exec E (Unit {0})
print_all lines w = returns tt (record w { out = w.out ++ lines })

-- An error of the build script, or fuel used up.
pub data BuildError : Type 0 where
  failed : TracersError → BuildError
  unfinished : BuildError

-- How a build script ends other than by returning: it exits, or its fuel was used up.
pub data Exit : Type 0 where
  exited : String → Exit
  still_running : Exit

abbrev fallible : {A : Type 0} → Exec TracersError A → Exec BuildError A
fallible m w = map_failure failed (m w)

module _ (tools : Tools) (codec : Codec BuildInfo)
    (get_targets : FilePath → String → Fallible (List FilePath)) (fuel : ℕ)
    (env : Environment) where
  -- The generator that `gen::code_generator` picks, and its `generate_native_code`
  unfoldable pub generate_with :
      BuildInfo → FilePath → FilePath → List FilePath → Exec BuildError Libs
  unfolding NativeCode.generate_native_code TracingImplementation.tracing_type
      TracingImplementation.is_static
  generate_with info manifest_dir out_dir targets =
      elim (TracingImplementation.tracing_type info.implementation) [
        | TracingType.dynamic ↦ (do
          print "dynamic generator doesn't require any build.rs code generation"
          pure [])
        | _ ↦
            if TracingImplementation.is_static info.implementation
            then (λ w.
                map_failure (λ e. unfinished)
                  (NativeCode.generate_native_code tools info out_dir fuel manifest_dir targets w))
            else pure []
      ]

  unfoldable pub generate_native_code : Exec BuildError (Unit {0})
  unfolding generate_with load link_lines dedup sort print_all
  generate_native_code = do
    manifest_dir ← fallible (
        lift (
          map_err other_error (
            var_with_context env "CARGO_MANIFEST_DIR"
              "CARGO_MANIFEST_DIR is not set; are you sure you're calling this from within build.rs?")))
    package_name ←
        expect "called `Result::unwrap()` on an `Err` value: NotPresent" (env "CARGO_PKG_NAME")
    targets ← fallible (
        lift (
          map_err (λ e. other_error (context "get_targets" e))
            (get_targets (join (from manifest_dir) (relative ("Cargo.toml" ∷ []))) package_name)))
    out_dir ← fallible (lift (var_or_error env "OUT_DIR"))
    info ← fallible (load tools.os codec env)
    libs ←
        generate_with info (join (from manifest_dir) (relative ("Cargo.toml" ∷ []))) (from out_dir)
          targets
    print_all (link_lines (dedup (sort libs)))

  unfoldable pub build_internal : Exec BuildError (Unit {0})
  unfolding generate_native_code get_build_path
  build_internal = do
    build_info_path ← fallible (lift (get_build_path env))
    print ("cargo:rustc-env=TRACERS_BUILD_INFO_PATH=" <> FilePath.display build_info_path)
    generate_native_code

  -- The `rustc-cfg` lines for an implementation
  unfoldable pub cfg_lines : TracingImplementation → List String
  unfolding TracingImplementation.is_enabled TracingImplementation.is_static
      TracingImplementation.as_ref
  cfg_lines i =
      if TracingImplementation.is_enabled i
      then "cargo:rustc-cfg=enabled"
        ∷ ("cargo:rustc-cfg="
            <> (if TracingImplementation.is_static i then "static" else "dynamic")
            <> "_enabled")
        ∷ ("cargo:rustc-cfg=" <> TracingImplementation.as_ref i <> "_enabled")
        ∷ []
      else []

  -- A build info file that cannot be saved is a warning.
  announce : Outcome TracersError FilePath → Outcome BuildError (Unit {0})
  announce (returns path w) = print ("cargo:build-info-path=" <> FilePath.display path) w
  announce (panics message w) = panics message w
  announce (fails e w) =
      print
        ("cargo:warning=Error saving build info file; some targets may fail to build.  Error details: "
          <> Error.display e)
        w

  configure : TracingImplementation → Exec BuildError (Unit {0})
  unfolding cfg_lines announce save print_all
  configure implementation = do
    print_all (cfg_lines implementation)
    package_name ← expect "CARGO_PKG_NAME" (env "CARGO_PKG_NAME")
    λ w. announce (save tools.os codec env (BuildInfo.new package_name implementation) w)

  unfoldable pub tracers_build_internal : FeatureFlags → Exec BuildError (Unit {0})
  unfolding configure generate_native_code select_implementation Features.debug
  tracers_build_internal features = do
    print_all ("Detected features: " ∷ Features.debug features ∷ [])
    selected ←
        expect "assertion failed: features.enable_static()" (select_implementation env features)
    implementation ← fallible (lift selected)
    configure implementation
    generate_native_code

  -- `std::process::exit(-1)` after the line on stderr is a failure with that line.
  unfoldable pub end_build : Outcome BuildError (Unit {0}) → Outcome Exit (Unit {0})
  end_build (returns _ w) = print "probes build succeeded" w
  end_build (fails (failed e) w) = fails (exited ("Error building probes: " <> Error.display e)) w
  end_build (fails unfinished w) = fails still_running w
  end_build (panics message w) = panics message w

  unfoldable pub build : Exec Exit (Unit {0})
  unfolding build_internal end_build
  build w = end_build (build_internal w)

  end_tracers_build : Outcome BuildError (Unit {0}) → Outcome Exit (Unit {0})
  end_tracers_build (returns _ w) = returns tt w
  end_tracers_build (fails (failed e) w) = panics ("tracers build failed: " <> Error.display e) w
  end_tracers_build (fails unfinished w) = fails still_running w
  end_tracers_build (panics message w) = panics message w

  -- `expect` on the flags; the message is what stands before the `{:?}` of the error.
  with_features : TracersResult FeatureFlags → Exec Exit (Unit {0})
  unfolding tracers_build_internal end_tracers_build
  with_features (ok features) w = end_tracers_build (tracers_build_internal features w)
  with_features (err e) w = panics "Invalid feature flags" w

  unfoldable pub tracers_build : Exec Exit (Unit {0})
  unfolding with_features Features.from_env
  tracers_build w = with_features (Features.from_env env) w
