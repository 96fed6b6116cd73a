-- ===== src/Gen/NativeCode/Target/Stap.antt =====
-- tracers-codegen/src/gen/static/native_code/target/stap.rs, with its template
-- templates/stap/provider_wrapper.cpp.
use tracers.Prelude.{String, ◌<>◌, List, [], ◌∷◌, map, map_err, length, ltb, if◌then◌else◌}
use tracers.Prelude.Radix.{decimal}
use tracers.Std.FilePath
use tracers.Std.FilePath.{FilePath, join, relative}
use tracers.Std.Disk.{Bytes}
use tracers.Std.Exec.{Exec, pure, lift, print, ◌>>=◌, ◌>>◌}
use tracers.Error.{TracersError, Fallible}
use tracers.Error.Raise.{native_code_generation_error}
use tracers.Spec.ProbeArg.{ProbeArgSpecification}
use tracers.Spec.Probe.{ProbeSpecification}
use tracers.Spec.Provider.{ProviderSpecification, name_with_hash}
use tracers.Gen.NativeLib.{NativeLib, static_wrapper_lib, static_wrapper_lib_path}
use tracers.Gen.NativeCode.Target.{
  Machine, build_dir, output_dir, c_param, make_directory, write_code, compile,
}

-- A function of the wrapper, which fires a probe by `macro(provider, probe, args…)`, and the semaphore.
pub record StapProbeCode : Type 0 where
  pub func : String
  pub params : List (String × String)
  pub macro_name : String
  pub macro_args : List String
  pub semaphore : String

unfoldable pub stap_probe : ProviderSpecification → ProbeSpecification → StapProbeCode
unfolding name_with_hash decimal
stap_probe spec probe = record {
  func = name_with_hash spec <> "_" <> probe.name;
  params = map c_param probe.args;
  macro_name =
      "STAP_PROBE" <> (if ltb 0 (length probe.args) then decimal (length probe.args) else "");
  macro_args = spec.name ∷ probe.name ∷ map (λ (arg : ProbeArgSpecification). arg.name) probe.args;
  semaphore = spec.name <> "_" <> probe.name <> "_semaphore";
}

-- `NativeProviderWrapperTemplate`
unfoldable pub stap_wrapper : ProviderSpecification → List StapProbeCode
unfolding stap_probe
stap_wrapper spec = map (stap_probe spec) spec.probes

module _ (machine : Machine)
    (render : ProviderSpecification → List StapProbeCode → Fallible (String × Bytes)) where
  -- `generate_native_lib`, up to the list of the libraries
  unfoldable pub compile_wrapper : FilePath → ProviderSpecification → Exec TracersError (Unit {0})
  unfolding stap_wrapper make_directory write_code compile build_dir output_dir name_with_hash
      native_code_generation_error FilePath.display
  compile_wrapper out_dir provider = do
    wrapper_code ← lift (
        map_err (native_code_generation_error "Rendering native wrapper template")
          (render provider (stap_wrapper provider)))
    make_directory machine "Creating build directory" (build_dir out_dir)
    let code_path = join (build_dir out_dir) (relative ((name_with_hash provider <> ".cpp") ∷ []))
    write_code machine "Creating wrapper file " "Generated wrapper code:\n"
        "Writing to wrapper file" code_path wrapper_code.0 wrapper_code.1
    make_directory machine "Creating output directory" (output_dir out_dir)
    compile machine
        (record {
          out_dir = output_dir out_dir;
          files = code_path ∷ [];
          includes = [];
          defines = [];
        })
        (name_with_hash provider)
    print (
        "Compiled native wrapper library "
        <> FilePath.display (join (output_dir out_dir) (relative (name_with_hash provider ∷ []))))

  -- `StapNativeCodeGenerator`, with its `out_dir` and its `provider`
  unfoldable pub generate_native_lib :
      FilePath → ProviderSpecification → Exec TracersError (List NativeLib)
  unfolding compile_wrapper output_dir name_with_hash
  generate_native_lib out_dir provider = do
    compile_wrapper out_dir provider
    pure (
        static_wrapper_lib (name_with_hash provider)
        ∷ static_wrapper_lib_path (output_dir out_dir)
        ∷ [])
