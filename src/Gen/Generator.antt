-- ===== src/Gen/Generator.antt =====
-- `CodeGenerator` and `code_generator` of tracers-codegen/src/gen/mod.rs, with the two generators of
-- gen/static/mod.rs and gen/dynamic/mod.rs. Native code is left to BuildRs/Build.antt.
pub mod Expands
use tracers.Prelude.{String, Option, none, some}
use tracers.Std.Environment.{Environment}
use tracers.Std.Exec.{World, Outcome, Exec, pure, panic, lift, expect, ◌>>=◌}
use tracers.Tracing.TracingType
use tracers.Tracing.TracingImplementation
use tracers.Error.{TracersError}
use tracers.Cache.{Codec}
use tracers.BuildRs.BuildInfo.{BuildInfo, load}
use tracers.Spec.Provider.{ProviderSpecification}
use tracers.Spec.ProbeCall.{SynPath, ProbeCallDetails}
use tracers.Gen.NativeCode.{Tools}
use tracers.Gen.Rust.{TracerStruct, ImplMod, CallCode, InitCode}
use tracers.Gen.Rust.Dynamic as DynamicCode
use tracers.Gen.Common.{generate_init_provider}
use tracers.Gen.Static.Probe.{Naming}
use tracers.Gen.Static.ProviderTrait
use tracers.Gen.Static.ProbeCall
use tracers.Gen.Dynamic

pub data CodeGenerator : Type 0 where
  static_generator : BuildInfo → CodeGenerator
  dynamic_generator : BuildInfo → CodeGenerator

unfoldable pub generator_for : BuildInfo → CodeGenerator
unfolding TracingImplementation.tracing_type
generator_for info = elim (TracingImplementation.tracing_type info.implementation) [
  | TracingType.dynamic ↦ dynamic_generator info
  | _ ↦ static_generator info
]

-- What a provider trait becomes
pub data ProviderCode : Type 0 where
  static_code : TracerStruct × ImplMod → ProviderCode
  dynamic_code : DynamicCode.TracerStruct × DynamicCode.ImplMod → ProviderCode

-- What the generators rely on; the version is that of tracers-codegen.
pub record Context : Type 0 where
  pub tools : Tools
  pub codec : Codec BuildInfo
  pub env : Environment
  pub static_naming : Naming
  pub dynamic_naming : Dynamic.Naming
  pub version : String

module _ (context : Context) where
  unfoldable pub code_generator : Exec TracersError CodeGenerator
  unfolding load generator_for
  code_generator = do
    info ← load context.tools.os context.codec context.env
    pure (generator_for info)

  -- A panic of `generate` is `none`.
  unfoldable pub handle_provider_trait :
      CodeGenerator → ProviderSpecification → Exec TracersError ProviderCode
  unfolding ProviderTrait.new ProviderTrait.generate Dynamic.new Dynamic.generate
  handle_provider_trait (static_generator info) spec = do
    generator ← ProviderTrait.new context.tools context.env info spec
    code ←
        expect "generate" (ProviderTrait.generate context.static_naming context.version generator)
    pure (static_code code)
  handle_provider_trait (dynamic_generator info) spec = do
    generator ←
        expect "assertion failed: build_info.implementation.is_dynamic()" (Dynamic.new info spec)
    code ← expect "generate" (Dynamic.generate context.dynamic_naming context.version generator)
    pure (dynamic_code code)

  unfoldable pub handle_probe_call : CodeGenerator → ProbeCallDetails → Exec TracersError CallCode
  unfolding ProbeCall.generate_probe_call Dynamic.generate_probe_call
  handle_probe_call (static_generator info) details =
      expect "generate_probe_call"
        (ProbeCall.generate_probe_call context.static_naming info details)
  handle_probe_call (dynamic_generator info) details = pure (Dynamic.generate_probe_call details)

  unfoldable pub handle_init_provider : CodeGenerator → SynPath → Exec TracersError InitCode
  unfolding generate_init_provider
  handle_init_provider generator provider = lift (generate_init_provider provider)
