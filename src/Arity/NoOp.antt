-- ===== src/Arity/NoOp.antt =====
-- tracers-dyn-noop/build.rs: the methods of a probe that does nothing.
use tracers.Prelude.{ℕ, String, ◌<>◌, length}
use tracers.Prelude.Radix.{decimal}
use tracers.Std.Disk.{Os}
use tracers.Std.Environment.{Environment}
use tracers.Std.Exec.{Exec, expect, ◌>>=◌}
use tracers.Error.{Failure, join}
use tracers.Arity.{max_arity, get_type_param_names, where_clause, typed_args, for_arities}
use tracers.Arity.Stap.{write_out}

unfoldable pub no_op_method : ℕ → String
unfolding get_type_param_names typed_args where_clause decimal
no_op_method arity =
    let type_params = get_type_param_names arity in
    "\n            #[allow(clippy::duplicate_underscore_argument)]\n            unsafe fn c_fire"
    <> decimal (length type_params)
    <> "<"
    <> join "," type_params
    <> ">(&self, "
    <> join "," (typed_args "_arg" type_params)
    <> ")\n                where "
    <> where_clause "ProbeArgNativeType" type_params
    <> " {\n                }\n            "

unfoldable pub generate_no_op_native_impl : String
unfolding for_arities no_op_method
generate_no_op_native_impl =
    "\n        /// Implementation of `UnsafeProviderProbeNativeImpl` for NoOp.\n        impl UnsafeProviderProbeNativeImpl for NoOpProbe\n        {\n            fn is_enabled(&self) -> bool { false }\n\n            unsafe fn c_fire0(&self) { }\n\n    "
    <> for_arities no_op_method 1 max_arity
    <> "}\n"

unfoldable pub main : Os → Environment → Exec Failure (Unit {0})
unfolding write_out generate_no_op_native_impl
main os env = do
  out_dir ← expect "called `Result::unwrap()` on an `Err` value: NotPresent" (env "OUT_DIR")
  write_out os env out_dir "probe_unsafe_impl.rs" generate_no_op_native_impl
