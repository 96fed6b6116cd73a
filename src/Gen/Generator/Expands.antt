-- ===== src/Gen/Generator/Expands.antt =====
-- The macro on a provider trait (gen/mod.rs): the generator that is picked suits the trait's expansion.
use tracers.Prelude.{
  String, true, false, some, List, [], ◌∷◌, ◌≡◌, ◌≢◌, refl, ◌⊎◌, inl, inr, Bool-cases, Option-cases,
}
use tracers.Std.Environment.{Environment}
use tracers.Std.Exec.{World, Outcome, returns, fails, panics}
use tracers.Std.Exec.Laws.{OnReturn, on_returns, continue-OnReturn, OnReturn-returns}
use tracers.Tracing.TracingType.{TracingType}
use tracers.Tracing.TracingTarget
use tracers.Tracing.TracingImplementation
use tracers.Tracing.TracingImplementation.{TracingImplementation}
use tracers.Error.{TracersError}
use tracers.BuildRs.BuildInfo.{BuildInfo, load}
use tracers.Spec.Probe.{ProbeSpecification}
use tracers.Spec.Provider.{ProviderSpecification, separate_probes}
use tracers.Gen.NativeCode.{Tools, ProcessedProviderTrait, get_processed_provider_info}
use tracers.Gen.Static.Probe.{target_of}
use tracers.Gen.Static.ProviderTrait
use tracers.Gen.Static.ProviderTrait.Links.{Links, new-Links, lifetimes_total}
use tracers.Gen.Rust.Dynamic as DynamicCode
use tracers.Gen.Rust.Dynamic.{ProbeMethods}
use tracers.Gen.Dynamic
use tracers.Gen.Dynamic.Links.{all_lifetimes_total}
use tracers.Gen.Generator.{
  CodeGenerator, static_generator, dynamic_generator, generator_for, ProviderCode, static_code,
  dynamic_code, Context, code_generator, handle_provider_trait,
}

-- The generator's assertion on the implementation
abbrev pub Fits : CodeGenerator → Type 0
Fits (static_generator info) = TracingImplementation.is_dynamic info.implementation ≡ false
Fits (dynamic_generator info) = TracingImplementation.is_dynamic info.implementation ≡ true

type-cases :
    (i : TracingImplementation)
    → ((TracingImplementation.tracing_type i ≡ TracingType.dynamic)
        × (TracingImplementation.is_dynamic i ≡ true))
      ⊎ (((TracingImplementation.tracing_type i ≡ TracingType.disabled)
            ⊎ (TracingImplementation.tracing_type i ≡ TracingType.static))
          × (TracingImplementation.is_dynamic i ≡ false))
unfolding TracingImplementation.tracing_type TracingImplementation.is_dynamic
type-cases TracingImplementation.disabled = inr (inl refl, refl)
type-cases TracingImplementation.static_stap = inr (inr refl, refl)
type-cases TracingImplementation.static_lttng = inr (inr refl, refl)
type-cases TracingImplementation.static_no_op = inr (inr refl, refl)
type-cases TracingImplementation.dynamic_stap = inl (refl, refl)
type-cases TracingImplementation.dynamic_no_op = inl (refl, refl)

generator_for-Fits : (info : BuildInfo) → Fits (generator_for info)
unfolding generator_for
generator_for-Fits info = elim (type-cases info.implementation) [
  | inl (dynamic, fits) ↦ rw (dynamic, generator_for) fits
  | inr (inl disabled, fits) ↦ rw (disabled, generator_for) fits
  | inr (inr static, fits) ↦ rw (static, generator_for) fits
]

code_generator-Fits : (context : Context) (u : World) → OnReturn Fits (code_generator context u)
unfolding code_generator
code_generator-Fits context u =
    continue-OnReturn Fits _ (load context.tools.os context.codec context.env u)
      (λ info v. on_returns (generator_for info) v (generator_for-Fits info))

all_methods_total :
    (spec : ProviderSpecification) (path : String × String) (probes : List ProbeSpecification)
    → (methods : List ProbeMethods) × (Dynamic.all_methods spec path probes ≡ some methods)
unfolding Dynamic.all_methods Dynamic.generate_trait_methods
all_methods_total spec path [] = ([], refl)
all_methods_total spec path (probe ∷ probes) =
    let (ls, known) = lifetimes_total probe.args in
    let (more, others) = all_methods_total spec path probes in
    elim (Option-cases (Dynamic.generate_trait_methods spec path probe)) [
      | inl missing ↦ absurd (cc (rw (known, Dynamic.generate_trait_methods) at missing))
      | inr (methods, first) ↦
          (methods ∷ more, rw (first, Dynamic.all_methods) (rw (others, Dynamic.all_methods) refl))
    ]

module _ (naming : Dynamic.Naming) (version : String) (g : Dynamic.ProviderTraitGenerator) where
  tracer_struct_total :
      (code : DynamicCode.TracerStruct) × (Dynamic.generate_tracer_struct naming version g
        ≡ some code)
  unfolding Dynamic.generate_tracer_struct
  tracer_struct_total =
      let (methods, total) =
        all_methods_total g.spec (Dynamic.struct_path naming g.spec) g.probes in
      elim (Option-cases (Dynamic.generate_tracer_struct naming version g)) [
        | inl missing ↦ absurd (cc (rw (total, Dynamic.generate_tracer_struct) at missing))
        | inr found ↦ found
      ]

  impl_mod_total : (code : DynamicCode.ImplMod) × (Dynamic.generate_impl_mod naming g ≡ some code)
  unfolding Dynamic.generate_impl_mod Dynamic.generate_provider_struct_type_params
  impl_mod_total =
      let (lifetimes, total) = all_lifetimes_total g.probes in
      (
        Dynamic.impl_mod_with naming g ("'a" ∷ lifetimes),
        rw (total, Dynamic.generate_impl_mod) refl,
      )

  generate_total :
      (code : DynamicCode.TracerStruct × DynamicCode.ImplMod) × (Dynamic.generate naming version g
        ≡ some code)
  unfolding Dynamic.generate
  generate_total =
      let (struct, first) = tracer_struct_total in
      let (impl, second) = impl_mod_total in
      ((struct, impl), rw (first, Dynamic.generate) (rw (second, Dynamic.generate) refl))

module _ (tools : Tools) (env : Environment) (info : BuildInfo) (spec : ProviderSpecification)
    (w : World) where
  with_processed_total :
      (out : Outcome TracersError ProcessedProviderTrait)
      → ((m : String) (v : World) → out ≢ panics m v)
      → (g : ProviderTrait.ProviderTraitGenerator) × (v : World) × (ProviderTrait.with_processed
            info spec out
          ≡ returns g v)
  unfolding ProviderTrait.with_processed
  with_processed_total (returns processed v) calm = (_, _, refl)
  with_processed_total (fails e v) calm = (_, _, refl)
  with_processed_total (panics m v) calm = absurd (calm m v refl)

  new_total :
      TracingImplementation.is_dynamic info.implementation ≡ false
      → ((m : String) (v : World) → get_processed_provider_info tools env spec w ≢ panics m v)
      → (g : ProviderTrait.ProviderTraitGenerator) × (v : World) × (ProviderTrait.new tools env info
            spec w
          ≡ returns g v)
  unfolding ProviderTrait.new
  new_total static calm =
      rw (static, ProviderTrait.new)
        (elim (Bool-cases (TracingTarget.is_enabled (target_of info))) [
          | inl enabled ↦
              rw (enabled, ProviderTrait.new)
                (with_processed_total (get_processed_provider_info tools env spec w) calm)
          | inr disabled ↦ rw (disabled, ProviderTrait.new) (_, _, refl)
        ])

module _ (context : Context) (spec : ProviderSpecification) (w : World) where
  abbrev Expanded : CodeGenerator → Type 0
  Expanded generator =
      (code : ProviderCode) × (v : World) × (handle_provider_trait context generator spec w
        ≡ returns code v)

  expand_static :
      (info : BuildInfo)
      → TracingImplementation.is_dynamic info.implementation ≡ false
      → ((m : String) (v : World)
          → get_processed_provider_info context.tools context.env spec w ≢ panics m v)
      → Expanded (static_generator info)
  unfolding handle_provider_trait ProviderTrait.generate
  expand_static info static calm =
      let (g, v, made) = new_total context.tools context.env info spec w static calm in
      let (impl, generated, _) =
        OnReturn-returns (Links context.static_naming spec)
          (ProviderTrait.new context.tools context.env info spec w)
          (new-Links context.static_naming context.tools context.env info spec w) made in
      (
        static_code
            (ProviderTrait.generate_tracer_struct context.static_naming context.version g, impl),
        v,
        rw (made, handle_provider_trait) (rw (generated, ProviderTrait.generate) refl),
      )

  expand_dynamic :
      (info : BuildInfo)
      → TracingImplementation.is_dynamic info.implementation ≡ true
      → Expanded (dynamic_generator info)
  unfolding handle_provider_trait Dynamic.new
  expand_dynamic info dynamic =
      let (code, generated) = generate_total context.dynamic_naming context.version (record {
        build_info = info;
        spec = (separate_probes spec).0;
        probes = (separate_probes spec).1;
      }) in
      (dynamic_code code, w, rw (dynamic, Dynamic.new) (rw (generated, handle_provider_trait) refl))

  expand :
      (generator : CodeGenerator)
      → Fits generator
      → ((m : String) (v : World)
          → get_processed_provider_info context.tools context.env spec w ≢ panics m v)
      → Expanded generator
  expand (static_generator info) fits calm = expand_static info fits calm
  expand (dynamic_generator info) fits calm = expand_dynamic info fits

  -- Every provider that has a specification is expanded by the generator that `code_generator` picks:
  -- there is no failure, none of the generators' assertions is violated and no lifetime panics, for every
  -- implementation, whether or not the build script left information on the provider. The condition is
  -- that the look-up of this information does not panic.
  pub handle_provider_trait_total :
      (u : World) {v : World} {generator : CodeGenerator}
      → code_generator context u ≡ returns generator v
      → ((m : String) (v' : World)
          → get_processed_provider_info context.tools context.env spec w ≢ panics m v')
      → (code : ProviderCode) × (v' : World) × (handle_provider_trait context generator spec w
          ≡ returns code v')
  handle_provider_trait_total u picked calm =
      expand _
        (OnReturn-returns Fits (code_generator context u) (code_generator-Fits context u) picked)
        calm
