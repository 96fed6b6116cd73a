-- ===== src/ProcMacros.antt =====
-- tracers-codegen/src/proc_macros.rs and cargo.rs, and the macros of tracers-macros-hack/src/lib.rs. The
-- tokens that a macro is given stand for what `syn::parse2` reads of them.
pub mod Attribute
use tracers.Prelude.{
  String, ◌<>◌, List, [], ◌∷◌, Option, none, some, Result, ok, err, map, map_err, str_eq,
}
use tracers.Std.FilePath.{FilePath}
use tracers.Std.Exec.{
  World, Outcome, returns, fails, panics, Exec, pure, lift, expect, panic, ◌>>=◌,
}
use tracers.Error.{
  SynError, TracersError, TracersResult, into_syn_error, Fallible, failure_text, Failure,
}
use tracers.Error.Raise.{syn_error}
use tracers.Spec.Partial.{Partial}
use tracers.Spec.Provider.{
  ItemTrait, TracerAttributeArgs, from_token_stream as provider_from_token_stream,
}
use tracers.Spec.ProbeCall.{
  SynPath, Expr, Tokens, from_token_stream as call_from_token_stream, init_from_token_stream,
}
use tracers.Gen.Rust.{CallCode, InitCode}
use tracers.Gen.Generator.{
  Context, ProviderCode, code_generator, handle_provider_trait, handle_probe_call,
  handle_init_provider,
}

-- A specification, under `?`
abbrev pub partial : {A : Type 0} → Partial TracersError A → Exec TracersError A
partial none = panic "called `Option::unwrap()` on a `None` value"
partial (some r) = lift r

-- `TracerAttributeArgs::from_token_stream`
unfoldable pub args_from_token_stream :
    Result SynError TracerAttributeArgs → TracersResult TracerAttributeArgs
unfolding syn_error
args_from_token_stream r = map_err (syn_error "Error parsing attribute args") r

module _ (context : Context) (tokens : Tokens) where
  unfoldable pub probe_impl : Result SynError Expr → Exec TracersError CallCode
  unfolding code_generator call_from_token_stream handle_probe_call
  probe_impl input = do
    generator ← code_generator context
    call ← partial (call_from_token_stream tokens input)
    handle_probe_call context generator call

  unfoldable pub init_provider_impl : Result SynError SynPath → Exec TracersError InitCode
  unfolding code_generator init_from_token_stream handle_init_provider
  init_provider_impl input = do
    generator ← code_generator context
    init ← lift (init_from_token_stream input)
    handle_init_provider context generator init

  unfoldable pub tracer_impl :
      Result SynError TracerAttributeArgs
      → Result SynError ItemTrait
      → Exec TracersError ProviderCode
  unfolding code_generator args_from_token_stream provider_from_token_stream handle_provider_trait
  tracer_impl attr item = do
    generator ← code_generator context
    crate_name ← expect "CARGO_PKG_NAME" (context.env "CARGO_PKG_NAME")
    args ← lift (args_from_token_stream attr)
    spec ← partial (provider_from_token_stream context.tools.crates crate_name args item)
    handle_provider_trait context generator spec

-- `TracersError::into_compiler_error`: darling's errors write themselves.
pub data CompilerError : Type 0 where
  write_errors : String → CompilerError
  to_compile_error : SynError → CompilerError

unfoldable pub into_compiler_error : TracersError → CompilerError
unfolding into_syn_error
into_compiler_error (TracersError.darling_error text) = write_errors text
into_compiler_error e = to_compile_error (into_syn_error e)

-- What the compiler is given: code, or an error.
pub data Expansion (Code : Type 0) : Type 0 where
  stream : Code → Expansion Code
  compile_error : CompilerError → Expansion Code

-- The `match` of each macro; nothing but a panic is left.
unfoldable pub expansion :
    {Code : Type 0} → Outcome TracersError Code → Outcome String (Expansion Code)
unfolding into_compiler_error
expansion (returns code w) = returns (stream code) w
expansion (fails e w) = returns (compile_error (into_compiler_error e)) w
expansion (panics m w) = panics m w

module _ (context : Context) (tokens : Tokens) where
  unfoldable pub probe : Result SynError Expr → Exec String (Expansion CallCode)
  unfolding expansion probe_impl
  probe input w = expansion (probe_impl context tokens input w)

  unfoldable pub init_provider : Result SynError SynPath → Exec String (Expansion InitCode)
  unfolding expansion init_provider_impl
  init_provider input w = expansion (init_provider_impl context tokens input w)

  unfoldable pub tracer :
      Result SynError TracerAttributeArgs
      → Result SynError ItemTrait
      → Exec String (Expansion ProviderCode)
  unfolding expansion tracer_impl
  tracer attr item w = expansion (tracer_impl context tokens attr item w)
