-- ===== src/Gen/NativeCode/Target/Linked.antt =====
-- The libraries that the generators of the targets return (gen/static/native_code/target), and the one
-- that the macro links a provider's module with (gen/static/provider_trait.rs).
use tracers.Prelude.{
  String, some, List, [], ◌∷◌, ◌++◌, map, ◌≡◌, refl, ◌∙◌, append_assoc, ◌⊎◌, inl, inr,
}
use tracers.Std.FilePath.{FilePath}
use tracers.Std.Disk.{Bytes}
use tracers.Std.Exec.{World, returns}
use tracers.Std.Exec.Laws.{OnReturn, on_returns, continue-OnReturn, OnReturn-returns}
use tracers.Error.{Fallible}
use tracers.Spec.Provider.{ProviderSpecification, name_with_hash}
use tracers.Gen.NativeLib.{
  NativeLib, static_wrapper_lib, static_wrapper_lib_path, dynamic_support_lib, support_lib_path,
}
use tracers.Gen.NativeCode.Target.{Machine, output_dir}
use tracers.Gen.NativeCode.Target.Stap
use tracers.Gen.NativeCode.Target.Stap.{StapProbeCode}
use tracers.Gen.NativeCode.Target.Lttng
use tracers.Gen.NativeCode.Target.Lttng.{LttngTools, LttngUstLibInfo, into_native_libs}
use tracers.Gen.Static.ProviderTrait.{wrapper_lib}

wrapper_lib-dynamics :
    (names : List String) (libs : List NativeLib)
    → wrapper_lib (map dynamic_support_lib names ++ libs) ≡ wrapper_lib libs
unfolding wrapper_lib
wrapper_lib-dynamics [] libs = refl
wrapper_lib-dynamics (n ∷ names) libs = wrapper_lib-dynamics names libs

wrapper_lib-paths :
    (paths : List FilePath) (libs : List NativeLib)
    → wrapper_lib (map support_lib_path paths ++ libs) ≡ wrapper_lib libs
unfolding wrapper_lib
wrapper_lib-paths [] libs = refl
wrapper_lib-paths (p ∷ paths) libs = wrapper_lib-paths paths libs

-- The macro links the provider's module with the wrapper library of the provider.
abbrev pub LinksWith : ProviderSpecification → List NativeLib → Type 0
LinksWith spec libs = wrapper_lib libs ≡ some (name_with_hash spec)

into_native_libs-LinksWith :
    (info : LttngUstLibInfo) (spec : ProviderSpecification) (dir : FilePath)
    → LinksWith spec (
        into_native_libs info
        ++ static_wrapper_lib (name_with_hash spec) ∷ static_wrapper_lib_path dir ∷ [])
unfolding into_native_libs wrapper_lib
into_native_libs-LinksWith info spec dir =
    let wrapper = static_wrapper_lib (name_with_hash spec) ∷ static_wrapper_lib_path dir ∷ [] in
    rw
      (append_assoc (map support_lib_path info.link_paths) (map dynamic_support_lib info.libs)
        wrapper)
      (wrapper_lib-paths info.link_paths (map dynamic_support_lib info.libs ++ wrapper)
        ∙ wrapper_lib-dynamics info.libs wrapper)

module _ (machine : Machine)
    (render : ProviderSpecification → List StapProbeCode → Fallible (String × Bytes))
    (tools : LttngTools) (out_dir : FilePath) (spec : ProviderSpecification) (w : World) where
  stap-OnReturn : OnReturn (LinksWith spec) (Stap.generate_native_lib machine render out_dir spec w)
  unfolding Stap.generate_native_lib wrapper_lib
  stap-OnReturn =
      continue-OnReturn (LinksWith spec) _ (Stap.compile_wrapper machine render out_dir spec w)
        (λ _ v. on_returns _ v refl)

  lttng-OnReturn :
      OnReturn (LinksWith spec) (Lttng.generate_native_lib machine tools out_dir spec w)
  unfolding Lttng.generate_native_lib
  lttng-OnReturn =
      continue-OnReturn (LinksWith spec) _ (Lttng.compile_wrapper machine tools out_dir spec w)
        (λ info v. on_returns _ v (into_native_libs-LinksWith info spec (output_dir out_dir)))

  -- Where the generator for SystemTap or the one for LTTng returns libraries, the one that the macro
  -- picks out of them to link the provider's module with is the wrapper library named after the provider
  -- and its hash, whatever support libraries there are beside it.
  pub generate_native_lib-LinksWith :
      {libs : List NativeLib} {v : World}
      → (Stap.generate_native_lib machine render out_dir spec w ≡ returns libs v)
        ⊎ (Lttng.generate_native_lib machine tools out_dir spec w ≡ returns libs v)
      → wrapper_lib libs ≡ some (name_with_hash spec)
  generate_native_lib-LinksWith (inl stap) =
      OnReturn-returns (LinksWith spec) (Stap.generate_native_lib machine render out_dir spec w)
        stap-OnReturn stap
  generate_native_lib-LinksWith (inr lttng) =
      OnReturn-returns (LinksWith spec) (Lttng.generate_native_lib machine tools out_dir spec w)
        lttng-OnReturn lttng
