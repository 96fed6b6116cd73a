-- ===== src/Arity/Probes.antt =====
-- tracers-core/build.rs: the texts of the tests of probes, and the script itself.
use Prim.Native.Char.{code}
use tracers.Prelude.{
  ℕ, zero, suc, ◌-◌, ◌%◌, ◌==◌, String, ◌<>◌, Bool, true, false, ◌||◌, none, some, List, [], ◌∷◌,
  map, take, length, leb, str_eq, get_elem?, if◌then◌else◌,
}
use tracers.Prelude.Radix.{decimal}
use tracers.Std.FilePath.{FilePath, join as join_path, relative}
use tracers.Std.FilePath.Parse.{from}
use tracers.Std.Disk.{Os, create, append}
use tracers.Std.Environment.{Environment}
use tracers.Std.Exec.{Exec, pure, expect, on_disk, ◌>>=◌, ◌>>◌}
use tracers.Error.{Failure, join}
use tracers.Arity.{
  max_arity, get_type_param_names, xform_types_i, make_tuple_type, where_clause, typed_args,
  for_arities,
}
use tracers.Arity.Stap.{as_bytes}
use tracers.Arity.Tuples.{
  generate_probe_args_impl, generate_unsafe_provider_probe_impl_trait,
  generate_unsafe_provider_probe_native_impl_trait,
}

abbrev max_quickcheck_arity : ℕ
max_quickcheck_arity = 8

abbrev string_arg_index : ℕ
string_arg_index = 4

abbrev arg_types : List (String × String)
arg_types =
    ("u64", "%u")
    ∷ ("u32", "%u")
    ∷ ("u16", "%u")
    ∷ ("u8", "%u")
    ∷ ("String", "%s")
    ∷ ("bool", "%u")
    ∷ ("i64", "%d")
    ∷ ("i32", "%d")
    ∷ ("i16", "%d")
    ∷ ("i8", "%d")
    ∷ []

pub record TestArg : Type 0 where
  pub name : String
  pub typ : String
  pub format : String
  pub by_ref : Bool

unfoldable pub starts_with : String → String → Bool
starts_with s String.[] = true
starts_with String.[] (String.◌∷◌ c prefix) = false
starts_with (String.◌∷◌ d s) (String.◌∷◌ c prefix) =
    let rest = starts_with s prefix in if code d == code c then rest else false

-- The index is below the length of the table.
abbrev arg_type : ℕ → String × String
arg_type n = elim (get_elem? arg_types (n % length arg_types)) [
  | some entry ↦ entry
  | none ↦ ("", "")
]

unfoldable pub choose_arg_for_n : ℕ → TestArg
unfolding decimal starts_with
choose_arg_for_n n = record {
  name = "arg" <> decimal n;
  typ = (arg_type n).0;
  format = (arg_type n).1;
  by_ref = str_eq (arg_type n).0 "String" || starts_with (arg_type n).0 "Option";
}

-- From the last argument to the first
unfoldable pub test_args : ℕ → List TestArg
unfolding choose_arg_for_n decimal
test_args zero = []
test_args (suc n) =
    (if leb (suc n) max_quickcheck_arity
      then choose_arg_for_n (suc n)
      else record (choose_arg_for_n string_arg_index) { name = "arg" <> decimal (suc n) })
    ∷ test_args n

unfoldable pub additional_arg_count : ℕ → ℕ
additional_arg_count arity =
    arity - (if leb arity max_quickcheck_arity then arity else max_quickcheck_arity)

abbrev pub skip {ℓ} : {A : Type ℓ} → ℕ → List A → List A
skip zero xs = xs
skip (suc n) [] = []
skip (suc n) (x ∷ xs) = skip n xs

unfoldable pub args_declaration : ℕ → List String
unfolding test_args additional_arg_count
args_declaration arity =
    map (λ (arg : TestArg). arg.name <> ": " <> arg.typ)
      (skip (additional_arg_count arity) (test_args arity))

unfoldable pub additional_args_declaration : ℕ → List String
unfolding test_args additional_arg_count
additional_args_declaration arity =
    map (λ (arg : TestArg). "let " <> arg.name <> " = \"" <> arg.name <> "\".to_string()")
      (take (additional_arg_count arity) (test_args arity))

abbrev expected_arg_value : TestArg → String
expected_arg_value arg =
    if str_eq arg.typ "String"
    then "c_and_back_again(&" <> arg.name <> ")"
    else if str_eq arg.typ "bool"
    then "u8::from(" <> arg.name <> ")"
    else arg.name

abbrev passed : TestArg → String
passed arg = if arg.by_ref then "&" <> arg.name else arg.name

abbrev repeat : String → ℕ → List String
repeat s zero = []
repeat s (suc n) = s ∷ repeat s n

unfoldable pub test_method : ℕ → String
unfolding get_type_param_names typed_args where_clause xform_types_i decimal
test_method arity =
    let type_params = get_type_param_names arity in
    "\n            unsafe fn c_fire"
    <> decimal (length type_params)
    <> "<"
    <> join "," type_params
    <> ">(&self, "
    <> join "," (typed_args "arg" type_params)
    <> ")\n                where "
    <> where_clause "ProbeArgNativeType" type_params
    <> " {\n                {\n                    let buffer = self.buffer.lock().unwrap();\n                    libc::snprintf(buffer.as_ptr() as *mut c_char,\n                        BUFFER_SIZE,\n                        self.format_string.as_ptr(),\n                        "
    <> join "," (xform_types_i type_params (λ i _. "arg" <> decimal i))
    <> ");\n                }\n                self.log_call();\n            }\n            "

unfoldable pub generate_test_unsafe_probe_impl : String
unfolding for_arities test_method
generate_test_unsafe_probe_impl =
    "\n\n    #[cfg(test)]\n    #[cfg(unix)]\n    #[allow(clippy::too_many_arguments)]\n    impl UnsafeProviderProbeNativeImpl for TestingProviderProbeImpl {\n        fn is_enabled(&self) -> bool {\n            self.is_enabled\n        }\n\n        unsafe fn c_fire0(&self) {\n            {\n                let buffer = self.buffer.lock().unwrap();\n                libc::snprintf(buffer.as_ptr() as *mut c_char, BUFFER_SIZE, self.format_string.as_ptr());\n            }\n\n            self.log_call();\n        }\n    "
    <> for_arities test_method 1 max_arity
    <> "}"

unfoldable pub probe_test : ℕ → String
unfolding args_declaration additional_args_declaration test_args make_tuple_type decimal
probe_test arity =
    "\n            #[quickcheck]\n            #[cfg(unix)]\n            #[allow(clippy::too_many_arguments)]\n            fn test_fire"
    <> decimal arity
    <> "("
    <> join ", " (args_declaration arity)
    <> ") -> bool {\n                let unsafe_impl = TestingProviderProbeImpl::new(\""
    <> join " " (map (λ (arg : TestArg). arg.format) (test_args arity))
    <> "\".to_string());\n                let probe_impl = ProviderProbe::new(&unsafe_impl);\n                "
    <> join ";\n" (additional_args_declaration arity)
    <> ";\n                let probe_args="
    <> make_tuple_type (map passed (test_args arity))
    <> ";\n                probe_impl.fire(probe_args);\n\n                assert_eq!(probe_impl.unsafe_probe_impl.get_calls(),\n                    vec![format!(\""
    <> join " " (repeat "{}" arity)
    <> "\", "
    <> join ", " (map expected_arg_value (test_args arity))
    <> ")]);\n                true\n            }\n            "

unfoldable pub generate_probe_tests : String
unfolding for_arities probe_test
generate_probe_tests = for_arities probe_test 1 max_arity

unfoldable pub generate_tests : String
unfolding generate_test_unsafe_probe_impl generate_probe_tests
generate_tests = generate_test_unsafe_probe_impl <> "\n" <> generate_probe_tests

-- `write_all`, behind what the file holds
write_text : Os → FilePath → String → Exec Failure (Unit {0})
unfolding as_bytes append
write_text os p text = on_disk (λ e. e) (λ disk. append os disk p (as_bytes text))

-- The implementations for the arities from one on, as many as are asked for
unfoldable pub write_impls : Os → FilePath → ℕ → ℕ → Exec Failure (Unit {0})
unfolding write_text generate_probe_args_impl get_type_param_names
write_impls os p arity zero = pure tt
write_impls os p arity (suc more) = do
  write_text os p (generate_probe_args_impl (get_type_param_names arity))
  write_impls os p (suc arity) more

unfoldable pub main : Os → Environment → Exec Failure (Unit {0})
unfolding write_impls write_text generate_tests generate_unsafe_provider_probe_impl_trait
    generate_unsafe_provider_probe_native_impl_trait from create
main os env = do
  out_dir ← expect "called `Result::unwrap()` on an `Err` value: NotPresent" (env "OUT_DIR")
  let dest_path = join_path (from out_dir) (relative ("probe_args.rs" ∷ []))
  let dest_tests_path = join_path (from out_dir) (relative ("probe_args_tests.rs" ∷ []))
  on_disk (λ e. e) (λ disk. create os disk dest_path)
  on_disk (λ e. e) (λ disk. create os disk dest_tests_path)
  write_impls os dest_path 0 (suc max_arity)
  write_text os dest_path generate_unsafe_provider_probe_impl_trait
  write_text os dest_path generate_unsafe_provider_probe_native_impl_trait
  write_text os dest_tests_path generate_tests
