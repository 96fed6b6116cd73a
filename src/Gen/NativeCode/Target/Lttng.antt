-- ===== src/Gen/NativeCode/Target/Lttng.antt =====
-- tracers-codegen/src/gen/static/native_code/target/lttng.rs, with its templates
-- templates/lttng/provider.tp and templates/lttng/provider_wrapper.cpp.
use tracers.Prelude.{
  String, ◌<>◌, Bool, true, false, Option, none, some, List, [], ◌∷◌, ◌++◌, map, map_err, take,
}
use tracers.Std.FilePath
use tracers.Std.FilePath.{FilePath, join, relative}
use tracers.Std.Disk.{Bytes, Disk}
use tracers.Std.Exec.{Exec, pure, fail, panic, lift, print, map_failure, ◌>>=◌, ◌>>◌}
use tracers.Core.CType
use tracers.Core.CType.{CType}
use tracers.Error.{TracersError, Failure, Fallible, format_err, context, join as join_texts}
use tracers.Error.Raise.{native_code_generation_error, other_error}
use tracers.Cache.{Codec, cache_object_computation, get_cache_path}
use tracers.Spec.ProbeArg.{ProbeArgSpecification}
use tracers.Spec.Probe.{ProbeSpecification}
use tracers.Spec.Provider.{ProviderSpecification, name_with_hash}
use tracers.Gen.NativeLib.{
  NativeLib, static_wrapper_lib, static_wrapper_lib_path, dynamic_support_lib, support_lib_path,
}
use tracers.Gen.NativeCode.Target.{
  Machine, build_dir, output_dir, c_param, make_directory, write_code, compile,
}

pub record LttngUstLibInfo : Type 0 where
  pub libs : List String
  pub link_paths : List FilePath
  pub include_paths : List FilePath
  pub defines : List (String × Option String)

unfoldable pub into_native_libs : LttngUstLibInfo → List NativeLib
into_native_libs info = map support_lib_path info.link_paths ++ map dynamic_support_lib info.libs

-- The probe's arguments, at most 10 of them.
unfoldable pub get_probe_args : ProbeSpecification → List ProbeArgSpecification
get_probe_args probe = take 10 probe.args

unfoldable pub get_probe_arg_ctf_macro : ProbeArgSpecification → Option String
unfolding CType.to_str
get_probe_arg_ctf_macro arg = elim arg.arg_type_info.c_type [
  | CType.no_arg ↦ none
  | CType.void_ptr ↦
      some ("ctf_integer_hex(uintptr_t, " <> arg.name <> ", (uintptr_t)" <> arg.name <> ")")
  | CType.uchar_ptr ↦
      some ("ctf_integer_hex(uintptr_t, " <> arg.name <> ", (uintptr_t)" <> arg.name <> ")")
  | CType.char_ptr ↦ some ("ctf_string(" <> arg.name <> ", " <> arg.name <> ")")
  | int_type ↦
      some ("ctf_integer(" <> CType.to_str int_type <> ", " <> arg.name <> ", " <> arg.name <> ")")
]

-- `map(…).flatten()`
unfoldable pub ctf_macros : List ProbeArgSpecification → List String
unfolding get_probe_arg_ctf_macro
ctf_macros [] = []
ctf_macros (arg ∷ rest) = elim (get_probe_arg_ctf_macro arg) [
  | none ↦ ctf_macros rest
  | some field ↦ field ∷ ctf_macros rest
]

unfoldable pub get_probe_output_fields : ProbeSpecification → String
unfolding ctf_macros get_probe_args
get_probe_output_fields probe = join_texts "\n" (ctf_macros (get_probe_args probe))

-- `TRACEPOINT_EVENT(provider, name, TP_ARGS(…), TP_FIELDS(…))`
pub record TracepointEvent : Type 0 where
  pub provider : String
  pub name : String
  pub args : List (String × String)
  pub fields : String

-- `NativeProviderTemplate`
unfoldable pub lttng_events : ProviderSpecification → List TracepointEvent
unfolding get_probe_args get_probe_output_fields
lttng_events spec =
    map
      (λ (probe : ProbeSpecification). record {
        provider = spec.name;
        name = probe.name;
        args = map c_param (get_probe_args probe);
        fields = get_probe_output_fields probe;
      })
      spec.probes

-- A function that fires a probe by `do_tracepoint(args…)`, and one that returns
-- `tracepoint_enabled(provider, probe)`.
pub record LttngProbeCode : Type 0 where
  pub func : String
  pub params : List (String × String)
  pub tracepoint_args : List String
  pub enabled_func : String

unfoldable pub lttng_probe : ProviderSpecification → ProbeSpecification → LttngProbeCode
unfolding name_with_hash get_probe_args
lttng_probe spec probe = record {
  func = name_with_hash spec <> "_" <> probe.name;
  params = map c_param (get_probe_args probe);
  tracepoint_args =
      spec.name
      ∷ probe.name
      ∷ map (λ (arg : ProbeArgSpecification). arg.name) (get_probe_args probe);
  enabled_func = spec.name <> "_" <> probe.name <> "_enabled";
}

-- `NativeProviderWrapperTemplate`
unfoldable pub lttng_wrapper : ProviderSpecification → List LttngProbeCode
unfolding lttng_probe
lttng_wrapper spec = map (lttng_probe spec) spec.probes

-- What `Command::output` returns of `lttng-gen-tp`: it is not there, it cannot be run, or its lines of
-- output (`none` where they are not UTF-8), whether it succeeded, and its status.
pub data ToolRun : Type 0 where
  not_found : ToolRun
  cannot_run : Failure → ToolRun
  ran : Option (List String) → Option (List String) → Bool → String → ToolRun

pub record LttngTools : Type 0 where
  pub render_template : ProviderSpecification → List TracepointEvent → Fallible (String × Bytes)
  pub render_wrapper : ProviderSpecification → List LttngProbeCode → Fallible (String × Bytes)
  -- the working directory, the template, and the names of the two files to write
  pub lttng_gen_tp : FilePath → FilePath → String → String → Disk → ToolRun × Disk
  -- `pkg_config`'s answer for lttng-ust
  pub pkg_config : Option LttngUstLibInfo
  pub info_codec : Codec LttngUstLibInfo
  pub codegen_name : String
  pub codegen_version : String

unfoldable pub print_lines : List String → Exec TracersError (Unit {0})
print_lines [] = pure tt
print_lines (line ∷ rest) = do print line; print_lines rest

abbrev default_info : LttngUstLibInfo
default_info = record { libs = "lttng-ust" ∷ []; link_paths = []; include_paths = []; defines = [] }

unfoldable pub found_info : Option LttngUstLibInfo → LttngUstLibInfo
found_info (some info) = info
found_info none = default_info

-- The lines on stderr are left out.
unfoldable pub tool_result : ToolRun → Exec TracersError (Unit {0})
unfolding native_code_generation_error print_lines
tool_result not_found = fail (
    native_code_generation_error "Generating native tracing code" (
      format_err
        "The `lttng-gen-tp` executable wasn't found; make sure it's installed and in the path"))
tool_result (cannot_run e) =
    fail (native_code_generation_error "Error generating provider code with `lttng-gen-tp`" e)
tool_result (ran none _ _ _) = panic "Expected valid UTF-8 output"
tool_result (ran (some lines) none _ _) = do print_lines lines; panic "Expected valid UTF-8 output"
tool_result (ran (some lines) (some _) true _) = print_lines lines
tool_result (ran (some lines) (some _) false status) = do
  print_lines lines
  fail (
      native_code_generation_error "Error generating provider code with `lttng-gen-tp`"
        (format_err ("lttng-gen-tp failed with exit code " <> status)))

module _ (machine : Machine) (tools : LttngTools) where
  -- `LttngUstLibInfo::get`
  unfoldable pub get : FilePath → Exec TracersError LttngUstLibInfo
  unfolding cache_object_computation found_info other_error
  get cache_dir w =
      map_failure (λ e. other_error (context "cached pkg-config results" e))
        (cache_object_computation machine.os tools.info_codec cache_dir "pkg-config" 0 "lttng-ust"
          (pure (found_info tools.pkg_config)) w)

  run_tool : FilePath → FilePath → String → String → Exec TracersError (Unit {0})
  unfolding tool_result
  run_tool code_dir template implementation header w =
      let run = tools.lttng_gen_tp code_dir template implementation header w.disk in
      tool_result run.0 (record w { disk = run.1 })

  -- `generate_native_lib`, up to the list of the libraries
  unfoldable pub compile_wrapper :
      FilePath → ProviderSpecification → Exec TracersError LttngUstLibInfo
  unfolding lttng_events lttng_wrapper get run_tool make_directory write_code compile build_dir
      output_dir name_with_hash get_cache_path native_code_generation_error FilePath.display
  compile_wrapper out_dir provider = do
    let code_dir = build_dir out_dir
    let lib_name = name_with_hash provider
    make_directory machine "Creating build directory" code_dir
    template ← lift (
        map_err (native_code_generation_error "Rendering LTTNG template")
          (tools.render_template provider (lttng_events provider)))
    let template_path = join code_dir (relative ((lib_name <> ".tp") ∷ []))
    write_code machine "Creating template file " "Generated LTTng template code:\n"
        "Writing to LTTng template file" template_path template.0 template.1
    wrapper_code ← lift (
        map_err (native_code_generation_error "Rendering native wrapper template")
          (tools.render_wrapper provider (lttng_wrapper provider)))
    let code_path = join code_dir (relative ((lib_name <> ".cpp") ∷ []))
    write_code machine "Creating wrapper file " "Generated wrapper code:\n"
        "Writing to wrapper file" code_path wrapper_code.0 wrapper_code.1
    let provider_impl = join code_dir (relative ((lib_name <> "_provider.c") ∷ []))
    let provider_header = join code_dir (relative ((lib_name <> "_provider.h") ∷ []))
    print (
        "Generating "
        <> FilePath.display provider_impl
        <> " and "
        <> FilePath.display provider_header
        <> " with `lttng-gen-tp`...")
    run_tool code_dir template_path (lib_name <> "_provider.c") (lib_name <> "_provider.h")
    make_directory machine "Creating output directory" (output_dir out_dir)
    info ← get (get_cache_path tools.codegen_name tools.codegen_version out_dir)
    compile machine
        (record {
          out_dir = output_dir out_dir;
          files = code_path ∷ provider_impl ∷ [];
          includes = code_dir ∷ info.include_paths;
          defines = info.defines;
        })
        lib_name
    print (
        "Compiled native wrapper library "
        <> FilePath.display (join (output_dir out_dir) (relative (lib_name ∷ []))))
    pure info

  -- `LttngNativeCodeGenerator`, with its `out_dir` and its `provider`
  unfoldable pub generate_native_lib :
      FilePath → ProviderSpecification → Exec TracersError (List NativeLib)
  unfolding compile_wrapper into_native_libs output_dir name_with_hash
  generate_native_lib out_dir provider = do
    info ← compile_wrapper out_dir provider
    pure (
        into_native_libs info
        ++ static_wrapper_lib (name_with_hash provider)
          ∷ static_wrapper_lib_path (output_dir out_dir)
          ∷ [])
