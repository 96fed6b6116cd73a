-- ===== src/Lib.antt =====
-- The code generator of `tracers` and the conversion of probe arguments.
--
-- A crate declares probes as the methods of a trait with the attribute `#[tracer]`. Its build script
-- finds these traits in its source files, and generates a native library for each; the proc macros
-- read the same traits once more when the crate is compiled, and look up what the build script made in
-- a cache. At run time a probe's arguments become C values.
--
-- Std models what the program uses of Rust's standard library: paths on Unix (Std.FilePath), the
-- disk as a map from paths to files and directories (Std.Disk), the environment, and code that reads
-- and changes the world, which is the disk and the lines printed for Cargo, and returns, fails or
-- panics (Std.Exec). The operating system's refusals and its incomplete writes are a parameter, the
-- record Os.
--
-- In tracers-codegen/src:
--   Tracing      lib.rs: TracingType, TracingTarget, TracingImplementation
--   Error        error.rs: TracersError, with its constructors in Error.Raise
--   Hashing      hashing.rs: add_hash_to_path
--   Cache        cache.rs: cache_file_computation, cache_object_computation and the lookup
--   BuildRs      build_rs.rs: FeatureFlags (Features), select_implementation (Select), BuildInfo,
--                and the build scripts of tracers and of the crates that use it (Build)
--   Syn          syn_helpers.rs: transform_types over the parse tree of a type (Syn.Types)
--   ArgTypes     argtypes.rs: from_syn_type
--   Spec         spec/probe_arg.rs, probe.rs, provider.rs, probe_call.rs and init_provider.rs, under
--                the names of these files
--   Deps         deps.rs: get_dependencies and find_module
--   Gen          gen/mod.rs (NativeLib, Generator), gen/static/native_code/mod.rs (NativeCode) and
--                its generators of the targets (NativeCode.Target), gen/common/mod.rs (Common),
--                gen/static (Static) and gen/dynamic (Dynamic); the code that they make with quote!
--                is data in Gen.Rust
--   Cargo        cargo.rs: get_targets
--   ProcMacros   proc_macros.rs, with the macros of tracers-macros-hack/src/lib.rs
-- In tracers-core/src:
--   Core         argtypes.rs and argtypes/*.rs: CType, the argument types, wrap and as_c_type
--   Dynamic      dynamic.rs: what identifies a probe at run time
-- In tracers-dyn-stap/src and tracers-dyn-noop/src:
--   Dynamic      provider.rs, tracer.rs and probe.rs of each (Dynamic.Stap, Dynamic.NoOp)
-- The scripts tracers-core/build.rs, tracers-dyn-stap/build.rs and tracers-dyn-noop/build.rs:
--   Arity        the methods and implementations that they print for up to 12 arguments
--
-- A build script (BuildRs.Build) loads the BuildInfo, and runs NativeCode over the targets of its
-- crate; NativeCode reads files through Cache, finds providers with Spec.Provider, follows modules
-- with Deps, and caches what a generator made of each provider. Spec.ProbeArg uses ArgTypes for the
-- types of arguments and Syn for their lifetimes. The proc macros (ProcMacros) load the same BuildInfo,
-- pick a generator (Gen.Generator) and make the struct and the module of a provider, or the code of a
-- probe call; a static module is linked with the wrapper library that NativeCode.Target compiled, and
-- a dynamic one calls Dynamic.Stap when the program runs.
--
-- Fuel. recurse_tree recurses on what a closure returns, so it takes fuel; its callers give it one
-- more than the size of the type, which the closures of the program never exceed. process_file
-- follows modules from file to file and takes fuel; any amount above the file's rank in an acyclic
-- crate is enough. Integers are printed digit by digit, with fuel above the number.
--
-- Parameters. The crates syn and quote (parsing and printing of tokens), serde_json (Codec),
-- twox_hash, darling, heck (Naming), askama, cc, pkg-config and cargo_metadata, the tool lttng-gen-tp
-- and the C library libstapsdt are arguments of what uses them, and so are, for the walk over the
-- sources, the generators of SystemTap and LTTng (the record Tools). The calls of libstapsdt are
-- recorded, and what it answers may depend on all the calls before.
--
-- Not modelled: spans of tokens, warnings on stderr, the bindings of libelf and libstapsdt with the
-- scripts that build these libraries, and the crate tracers, which passes names on.
pub mod Prelude
pub mod Std
pub mod Tracing
pub mod Error
pub mod Hashing
pub mod Cache
pub mod BuildRs
pub mod Syn
pub mod Core
pub mod ArgTypes
pub mod Spec
pub mod Deps
pub mod Gen
pub mod Dynamic
pub mod ProcMacros
pub mod Arity
pub mod Cargo
pub mod Tests
