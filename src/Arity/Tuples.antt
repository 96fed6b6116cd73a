-- ===== src/Arity/Tuples.antt =====
-- tracers-core/build.rs: the traits of probes and their implementations for tuples of arguments. Its
-- `main` is in Arity/Probes.antt.
use tracers.Prelude.{ℕ, String, ◌<>◌, List, length}
use tracers.Prelude.Radix.{decimal}
use tracers.Error.{join}
use tracers.Arity.{
  max_arity, get_type_param_names, xform_types, xform_types_i, make_tuple_type, where_clause,
  typed_args, for_arities,
}

unfoldable pub generate_probe_args_impl : List String → String
unfolding xform_types xform_types_i make_tuple_type where_clause decimal
generate_probe_args_impl type_params =
    "\n        /// Supports the use of a "
    <> decimal (length type_params)
    <> "-arity tuple type of probe arguments.\n        ///\n        /// Note that all of the elements must have a type `T` for which `ProbeArgType<T>` is defined.\n        impl<"
    <> join "," type_params
    <> "> ProbeArgs<"
    <> make_tuple_type type_params
    <> "> for "
    <> make_tuple_type type_params
    <> " where "
    <> where_clause "ProbeArgType" type_params
    <> " {\n            const ARG_COUNT: usize = "
    <> decimal (length type_params)
    <> ";\n            fn arg_types() -> Vec<CType> {\n                vec!["
    <> join "," (xform_types type_params (λ x. "get_ctype::<" <> x <> ">()"))
    <> "]\n            }\n\n            fn fire_probe<ImplT: UnsafeProviderProbeImpl>(self, probe: &ImplT) {\n               unsafe { probe.fire"
    <> decimal (length type_params)
    <> "("
    <> join "," (xform_types_i type_params (λ i _. "self." <> decimal i))
    <> ") }\n            }\n        }\n    "

unfoldable pub fire_declaration : ℕ → String
unfolding get_type_param_names typed_args where_clause decimal
fire_declaration arity =
    let type_params = get_type_param_names arity in
    "\n            unsafe fn fire"
    <> decimal (length type_params)
    <> "<"
    <> join "," type_params
    <> ">(&self, "
    <> join "," (typed_args "arg" type_params)
    <> ")\n                where "
    <> where_clause "ProbeArgType" type_params
    <> ";\n            "

unfoldable pub generate_unsafe_provider_probe_impl_trait : String
unfolding for_arities fire_declaration
generate_unsafe_provider_probe_impl_trait =
    "\n        /// This trait is implemented by tracing providers that operate on probe arguments in their Rust represention, not\n        /// their C native representation.  Most implementations will not implement this trait directly but rather its subtrait\n        /// `UnsafeProviderProbeNativeImpl`, which provides an implementation of this trait which wraps all parameters in their\n        /// wrapper types and calls its own trait methods with native C representations of each argument.\n        ///\n        /// This trait and its subtrait `UnsafeProviderProbeNativeImpl` are both unsafe because the provider cannot necessarily\n        /// verify that the types and argument counts for the probe match those when the probe was first created.  This is partially for\n        /// performance reasons and also a practical limitation of the `var-arg` based implementations most commonly used in C tracing\n        /// libraries.\n        ///\n        /// The implementor of this API for a specific tracing library need only implement all 13\n        /// possible `fire` methods, one for each number of args from 0 to 12.\n        #[allow(clippy::too_many_arguments)]\n        pub trait UnsafeProviderProbeImpl\n        {\n            /// Tests if this probe is enabled or not.  This should be a very fast test, ideally just a memory\n            /// access.  The Rust compiler should be able to inline this implementation for maxmimum performance.\n            fn is_enabled(&self) -> bool;\n\n            unsafe fn fire0(&self);\n    "
    <> for_arities fire_declaration 1 max_arity
    <> "}"

unfoldable pub c_fire_declaration : ℕ → String
unfolding get_type_param_names typed_args where_clause decimal
c_fire_declaration arity =
    let type_params = get_type_param_names arity in
    "\n            unsafe fn c_fire"
    <> decimal (length type_params)
    <> "<"
    <> join "," type_params
    <> ">(&self, "
    <> join "," (typed_args "arg" type_params)
    <> ")\n                where "
    <> where_clause "ProbeArgNativeType" type_params
    <> ";\n            "

-- `fire` of an arity, which wraps the arguments and passes them to `c_fire`
unfoldable pub fire_method : ℕ → String
unfolding get_type_param_names typed_args where_clause xform_types_i decimal
fire_method arity =
    let type_params = get_type_param_names arity in
    "\n            unsafe fn fire"
    <> decimal (length type_params)
    <> "<"
    <> join "," type_params
    <> ">(&self, "
    <> join "," (typed_args "arg" type_params)
    <> ")\n                where "
    <> where_clause "ProbeArgType" type_params
    <> " {\n                "
    <> join ";\n" (
        xform_types_i type_params
          (λ i _. "let wrapper" <> decimal i <> " = wrap(arg" <> decimal i <> ")"))
    <> ";\n                self.c_fire"
    <> decimal (length type_params)
    <> "("
    <> join "," (xform_types_i type_params (λ i _. "wrapper" <> decimal i <> ".as_c_type()"))
    <> ");\n            }\n            "

unfoldable pub generate_unsafe_provider_probe_native_impl_trait : String
unfolding for_arities c_fire_declaration fire_method
generate_unsafe_provider_probe_native_impl_trait =
    "\n        /// See `UnsafeProviderProbeImpl` for additional details.  This subtrait provides an implementation of\n        /// `UnsafeProviderProbeImpl` which wraps each of the Rust types into a `ProbeArgWrapper` and presents to the\n        /// implementor of this trait the C representation of each probe argument.  It is presumbed that implmeentations of\n        /// `UnsafeProviderProbeNativeImpl` are passing these parameters directly into C APIs.\n        ///\n        /// The implementor of this API for a specific tracing library need only implement all 13\n        /// possible `fire` methods, one for each number of args from 0 to 12.\n        ///\n        /// *IMPORTANT NOTE TO IMPLEMENTORS*: Each of the `fireN` methods take arguments which may be either\n        /// integers or possibly pointers to strings or other memory.  The caller guarantees that these are valid\n        /// addresses *only* for the duration of the call.  Immediatley after the `fireN` method returns this memory may\n        /// be freed.  Thus it's imperative that the probing implementation process probes synchronously.  Otherwise\n        /// invalid memory accesses are inevitable.\n        #[allow(clippy::too_many_arguments)]\n        pub trait UnsafeProviderProbeNativeImpl\n        {\n            /// Tests if this probe is enabled or not.  This should be a very fast test, ideally just a memory\n            /// access.  The Rust compiler should be able to inline this implementation for maxmimum performance.\n            fn is_enabled(&self) -> bool;\n\n            /// This is actually identical to `fire0` but is provided for consistency with the other arities\n            unsafe fn c_fire0(&self);\n\n    "
    <> (for_arities c_fire_declaration 1 max_arity
        <> ("}\n"
            <> ("\n        impl<T: UnsafeProviderProbeNativeImpl> UnsafeProviderProbeImpl for T\n        {\n            fn is_enabled(&self) -> bool {\n                T::is_enabled(self)\n            }\n            unsafe fn fire0(&self) { self.c_fire0() }\n\n    "
                <> (for_arities fire_method 1 max_arity <> "}\n"))))
