-- ===== src/ProcMacros/Attribute.antt =====
-- The attribute macro `tracer` (tracers-codegen/src/proc_macros.rs), from the tokens to the compiler.
use tracers.Prelude.{String, some, ok, ◌≡◌, ◌≢◌, refl}
use tracers.Std.Exec.{World, returns, panics}
use tracers.Error.{TracersError}
use tracers.Spec.Partial as Partial
use tracers.Spec.Provider.{
  ItemTrait, TracerAttributeArgs, ProviderSpecification, new, from_token_stream,
}
use tracers.Spec.Provider.Accepted.{IsProviderTrait, new-accepts, new-refuses}
use tracers.Spec.ProbeCall.{Tokens}
use tracers.Gen.NativeCode.{get_processed_provider_info}
use tracers.Gen.Generator.{Context, CodeGenerator, ProviderCode, code_generator}
use tracers.Gen.Generator.Expands.{handle_provider_trait_total}
use tracers.ProcMacros.{
  stream, compile_error, into_compiler_error, expansion, tracer, tracer_impl,
  args_from_token_stream,
}

module _ (context : Context) (tokens : Tokens) (args : TracerAttributeArgs) (item : ItemTrait)
    (w : World) where
  -- A provider trait becomes code: for every implementation that the build info names, where Cargo's
  -- variable is set and the look-up of the build script's information on that provider does not panic.
  pub tracer-accepts :
      {v : World} {generator : CodeGenerator} {crate_name : String}
      → code_generator context w ≡ returns generator v
      → context.env "CARGO_PKG_NAME" ≡ some crate_name
      → IsProviderTrait item
      → ((spec : ProviderSpecification) (m : String) (v' : World)
          → new context.tools.crates crate_name args item ≡ Partial.pure spec
          → get_processed_provider_info context.tools context.env spec v ≢ panics m v')
      → (code : ProviderCode) × (v' : World) × (tracer context tokens (ok args) (ok item) w
          ≡ returns (stream code) v')
  unfolding tracer tracer_impl expansion args_from_token_stream from_token_stream
  tracer-accepts {v} {generator} {crate_name} picked named provider calm =
      let (spec, made, _, _, _, _, _) =
        new-accepts context.tools.crates crate_name args item provider in
      let (code, v', handled) =
        handle_provider_trait_total context spec v w picked (λ m u. calm spec m u made) in
      (
        code,
        v',
        rw (picked, tracer) (rw (named, tracer) (rw (made, tracer) (rw (handled, tracer) refl))),
      )

  -- A trait that is no provider trait, and that is in the way of nothing else, becomes a compile error.
  pub tracer-refuses :
      {v : World} {generator : CodeGenerator} {crate_name : String}
      → code_generator context w ≡ returns generator v
      → context.env "CARGO_PKG_NAME" ≡ some crate_name
      → (¬ IsProviderTrait item)
      → (e : TracersError) × (tracer context tokens (ok args) (ok item) w
          ≡ returns (compile_error (into_compiler_error e)) v)
  unfolding tracer tracer_impl expansion args_from_token_stream from_token_stream
  tracer-refuses {v} {generator} {crate_name} picked named other =
      let (e, refused) = new-refuses context.tools.crates crate_name args item other in
      (e, rw (picked, tracer) (rw (named, tracer) (rw (refused, tracer) refl)))
