-- ===== src/Gen/Static/ProviderTrait/Fallback.antt =====
-- What the fallback of `ProviderTraitGenerator::new` (gen/static/provider_trait.rs) leaves of a module, and
-- what a probe call (gen/static/probe_call.rs) expects of it.
use mathlib.Core.List.{Memᴰ}
use mathlib.Core.List.Memᴰ
use mathlib.Core.Path.{subst}
use mathlib.Core.Option.{some-injective}
use tracers.Prelude.{
  String, ◌<>◌, true, false, Option, none, some, List, [], ◌∷◌, map, ◌≡◌, ◌≢◌, refl, sym, All,
  Option-cases, inl, inr,
}
use tracers.Std.Environment.{Environment}
use tracers.Std.Exec.{World, returns, fails}
use tracers.Tracing.TracingTarget
use tracers.Tracing.TracingTarget.{TracingTarget}
use tracers.Tracing.TracingImplementation
use tracers.Error.{TracersError}
use tracers.BuildRs.BuildInfo.{BuildInfo}
use tracers.Spec.ProbeArg.{ProbeArgSpecification}
use tracers.Spec.Probe.{ProbeSpecification}
use tracers.Spec.Provider.{ProviderSpecification, separate_probes}
use tracers.Spec.ProbeCall.{ProbeCallDetails, SynPath}
use tracers.Gen.NativeCode.{Tools, get_processed_provider_info}
use tracers.Gen.Rust.{WrapperFunc, ImplMod, dummy, CallCode}
use tracers.Gen.Common.{args_lifetime_parameters}
use tracers.Gen.Static.Probe.{
  Naming, target_of, generate_native_declaration, generate_native_probe_func,
  generate_native_is_enabled, generate_wrapper_func, wrapper_for, wrapper_name,
}
use tracers.Gen.Static.ProviderTrait.{
  new, with_processed, fallback, generator_of, wrapper_funcs, generate_impl_mod, mod_contents,
}
use tracers.Gen.Static.ProviderTrait.Links.{target-cases, wrapper_funcs_total}
use tracers.Gen.Static.ProbeCall.{generate_probe_call, in_module, fire_code, module_path}
use tracers.Gen.Static.ProbeCall.Declared.{
  names_of_wrappers, names_of_natives, functions, names_of_call,
}
use tracers.Gen.Static.ProbeCall.Resolves.{in_module-fire}

-- Neither a probe nor the wrapper of its arguments has the name.
abbrev pub IsFree : String → List ProbeSpecification → Type 0
IsFree name probes = All (λ p. (name ≢ p.method_name) × (name ≢ wrapper_name p.name)) probes

natives_free :
    (naming : Naming) (info : BuildInfo) (spec : ProviderSpecification)
    (probes : List ProbeSpecification) {name : String}
    → target_of info ≡ TracingTarget.no_op
    → IsFree name probes
    → Memᴰ name (names_of_natives (map (generate_native_declaration naming info spec) probes))
    → ⊥
unfolding generate_native_declaration generate_native_probe_func generate_native_is_enabled
natives_free naming info spec [] no_op free member = Memᴰ.not-nil member
natives_free naming info spec (p ∷ probes) {name} no_op free member =
    elim (Memᴰ.cases_cons (rw (no_op, generate_native_is_enabled) at member)) [
      | inl same ↦ free.0.0 same
      | inr rest ↦ natives_free naming info spec probes no_op free.1 rest
    ]

wrapper_for-rest :
    (probe : String) (args : List ProbeArgSpecification) (others : List (Option WrapperFunc))
    {name : String} {func : Option WrapperFunc}
    → wrapper_for probe args ≡ some func
    → name ≢ wrapper_name probe
    → Memᴰ name (names_of_wrappers (func ∷ others))
    → Memᴰ name (names_of_wrappers others)
unfolding wrapper_for
wrapper_for-rest probe [] others {name} made free member =
    subst (λ f. Memᴰ name (names_of_wrappers (f ∷ others))) (sym (some-injective _ _ made)) member
wrapper_for-rest probe (first ∷ rest) others {name} made free member =
    elim (Option-cases (args_lifetime_parameters (first ∷ rest))) [
      | inl missing ↦ absurd (cc (rw (missing, wrapper_for) at made))
      | inr (ls, found) ↦
          elim (Memᴰ.cases_cons (
            subst (λ f. Memᴰ name (names_of_wrappers (f ∷ others)))
              (sym (some-injective _ _ (rw (found, wrapper_for) at made))) member)) [
                | inl same ↦ absurd (free same)
                | inr below ↦ below
              ]
    ]

wrappers_free :
    (probes : List ProbeSpecification) {name : String} {funcs : List (Option WrapperFunc)}
    → wrapper_funcs probes ≡ some funcs
    → IsFree name probes
    → Memᴰ name (names_of_wrappers funcs)
    → ⊥
unfolding wrapper_funcs generate_wrapper_func
wrappers_free [] {name} made free member =
    Memᴰ.not-nil
      (subst (λ fs. Memᴰ name (names_of_wrappers fs)) (sym (some-injective _ _ made)) member)
wrappers_free (p ∷ probes) {name} made free member =
    elim (Option-cases (wrapper_for p.name p.args)) [
      | inl missing ↦ absurd (cc (rw (missing, wrapper_funcs) at made))
      | inr (func, found) ↦ elim (Option-cases (wrapper_funcs probes)) [
        | inl missing ↦
            absurd (cc (rw (missing, wrapper_funcs) at (rw (found, wrapper_funcs) at made)))
        | inr (others, rest) ↦ wrappers_free probes rest free.1 (
            wrapper_for-rest p.name p.args others found free.0.1 (
              subst (λ fs. Memᴰ name (names_of_wrappers fs))
                (sym (
                  some-injective _ _
                    (rw (rest, wrapper_funcs) at (rw (found, wrapper_funcs) at made))))
                member))
      ]
    ]

-- The module of the fallback
fallback_mod :
    (naming : Naming) (info : BuildInfo) (spec : ProviderSpecification) {name : String}
    → IsFree name spec.probes
    → (impl : ImplMod) × (generate_impl_mod naming (generator_of (fallback info) spec none)
        ≡ some impl)
      × (Memᴰ name (functions impl) → ⊥)
unfolding generate_impl_mod mod_contents separate_probes TracingImplementation.tracing_target
fallback_mod naming info spec {name} free =
    let (funcs, all) = wrapper_funcs_total spec.probes in
    (
      dummy (mod_contents naming (generator_of (fallback info) spec none) funcs),
      rw (all, generate_impl_mod) refl,
      λ member. elim (Memᴰ.append_cases (names_of_wrappers funcs) member) [
        | inl wrapper ↦ wrappers_free spec.probes all free wrapper
        | inr native ↦
            natives_free naming (fallback info) (separate_probes spec).0 spec.probes refl free
              native
      ],
    )

fire_enabled :
    (details : ProbeCallDetails) (path : Option SynPath) {code : CallCode}
    → in_module true details path ≡ some code
    → Memᴰ (details.probe <> "_enabled") (names_of_call code)
unfolding fire_code
fire_enabled details path generated =
    let (p, same) = in_module-fire true details path generated in
    subst (λ c. Memᴰ (details.probe <> "_enabled") (names_of_call c)) same (Memᴰ.head refl)

-- The call's code, where the target in use is one that traces
call_enabled :
    (naming : Naming) (info : BuildInfo) (details : ProbeCallDetails) {code : CallCode}
    → TracingImplementation.is_dynamic info.implementation ≡ false
    → TracingTarget.is_enabled (target_of info) ≡ true
    → generate_probe_call naming info details ≡ some code
    → Memᴰ (details.probe <> "_enabled") (names_of_call code)
unfolding generate_probe_call
call_enabled naming info details static enabled generated = elim (target-cases (target_of info)) [
  | inl disabled ↦ absurd (cc (rw disabled at enabled))
  | inr (inl stap) ↦
      fire_enabled details (module_path naming details.provider)
        (rw (stap, generate_probe_call) at (rw (static, generate_probe_call) at generated))
  | inr (inr (inl lttng)) ↦
      fire_enabled details (module_path naming details.provider)
        (rw (lttng, generate_probe_call) at (rw (static, generate_probe_call) at generated))
  | inr (inr (inr no_op)) ↦ absurd (cc (rw no_op at enabled))
]

-- Where the target in use traces but the build script left no information on the provider, the macro
-- falls back to the module of the no-op target, without a failure or a panic. A probe call is still
-- generated for the target in use: it names the function `…_enabled` of its probe, which the module
-- does not declare, unless a probe or a wrapper has that name.
pub generate_probe_call-unresolved :
    (naming : Naming) (tools : Tools) (env : Environment) (info : BuildInfo)
    (spec : ProviderSpecification) (w : World) (details : ProbeCallDetails) {e : TracersError}
    {v : World} {code : CallCode}
    → TracingImplementation.is_dynamic info.implementation ≡ false
    → TracingTarget.is_enabled (target_of info) ≡ true
    → get_processed_provider_info tools env spec w ≡ fails e v
    → generate_probe_call naming info details ≡ some code
    → IsFree (details.probe <> "_enabled") spec.probes
    → (impl : ImplMod) × (new tools env info spec w
        ≡ returns (generator_of (fallback info) spec none) v)
      × (generate_impl_mod naming (generator_of (fallback info) spec none) ≡ some impl)
      × Memᴰ (details.probe <> "_enabled") (names_of_call code)
      × (¬ Memᴰ (details.probe <> "_enabled") (functions impl))
unfolding new with_processed
generate_probe_call-unresolved naming tools env info spec w details static enabled failed generated
      free =
    let (impl, made, undeclared) = fallback_mod naming info spec free in
    (
      impl,
      rw (static, new) (rw (enabled, new) (rw (failed, new) refl)),
      made,
      call_enabled naming info details static enabled generated,
      undeclared,
    )
