-- ===== src/Gen/Static/ProviderTrait/Links.antt =====
-- The generated module (gen/static/provider_trait.rs) and the native wrapper (native_code/target) agree
-- on what is linked.
use tracers.Prelude.{
  String, false, Option, none, some, List, [], ◌∷◌, ◌++◌, map, ◌≡◌, refl, Option-cases, inl, inr,
  ◌⊎◌, Bool-cases,
}
use tracers.Std.Exec.{World, Outcome, returns, fails, panics}
use tracers.Std.Exec.Laws.{OnReturn, on_returns, on_panics, OnReturn-returns}
use tracers.Error.{TracersError}
use tracers.Std.Environment.{Environment}
use tracers.Tracing.TracingTarget
use tracers.Tracing.TracingTarget.{TracingTarget}
use tracers.Tracing.TracingImplementation
use tracers.BuildRs.BuildInfo.{BuildInfo}
use tracers.Spec.Probe.{ProbeSpecification}
use tracers.Spec.Provider.{ProviderSpecification, separate_probes, name_with_hash}
use tracers.Gen.NativeCode.{Tools, ProcessedProviderTrait, get_processed_provider_info}
use tracers.Gen.NativeCode.Target.Stap.{StapProbeCode, stap_probe, stap_wrapper}
use tracers.Gen.NativeCode.Target.Lttng.{LttngProbeCode, lttng_probe, lttng_wrapper}
use tracers.Gen.Rust.{
  NativeFunc, NativeEnabled, semaphore, enabled_func, ImplMod, no_mod, dummy, extern_c, WrapperFunc,
}
use tracers.Gen.Static.Probe.{
  Naming, target_of, generate_native_declaration, generate_native_probe_func,
  generate_native_is_enabled, native_func_name, generate_rust_is_enabled, generate_wrapper_func,
  wrapper_for,
}
use tracers.Spec.ProbeArg.{ProbeArgSpecification, lifetimes}
use tracers.Spec.ProbeArg.Lifetimes.{lifetimes_of_total}
use tracers.Gen.Common.{args_lifetime_parameters}
use tracers.Gen.Static.ProviderTrait.{
  wrapper_funcs, wrapper_lib, new, with_processed, fallback, ProviderTraitGenerator, generator_of,
  generate_impl_mod, mod_contents, extern_mod,
}

abbrev pub linked : Option String → List String
linked none = []
linked (some symbol) = symbol ∷ []

abbrev pub enabled_symbols : NativeEnabled → List String
enabled_symbols (semaphore link name) = linked link
enabled_symbols (enabled_func link name) = link ∷ []

-- The names of the native symbols that declarations are linked with
abbrev pub link_names : List (NativeFunc × NativeEnabled) → List String
link_names [] = []
link_names ((func, enabled) ∷ rest) =
    linked func.link_name ++ (enabled_symbols enabled ++ link_names rest)

abbrev pub linked_symbols : ImplMod → List String
linked_symbols no_mod = []
linked_symbols (dummy contents) = link_names contents.native_declarations
linked_symbols (extern_c contents enabled lib) = link_names contents.native_declarations

-- The symbols that a wrapper defines
abbrev pub stap_symbols : List StapProbeCode → List String
stap_symbols [] = []
stap_symbols (code ∷ rest) = code.func ∷ code.semaphore ∷ stap_symbols rest

abbrev pub lttng_symbols : List LttngProbeCode → List String
lttng_symbols [] = []
lttng_symbols (code ∷ rest) = code.func ∷ code.enabled_func ∷ lttng_symbols rest

module _ (naming : Naming) (info : BuildInfo) (spec : ProviderSpecification) where
  abbrev bare : ProviderSpecification
  bare = (separate_probes spec).0

  link_names-stap :
      (probes : List ProbeSpecification)
      → target_of info ≡ TracingTarget.stap
      → link_names (map (generate_native_declaration naming info bare) probes)
        ≡ stap_symbols (map (stap_probe spec) probes)
  unfolding generate_native_declaration generate_native_probe_func generate_native_is_enabled
      native_func_name stap_probe name_with_hash separate_probes
  link_names-stap [] h = refl
  link_names-stap (p ∷ probes) h =
      rw (h, generate_native_is_enabled) (rw h (rw (link_names-stap probes h) refl))

  link_names-lttng :
      (probes : List ProbeSpecification)
      → target_of info ≡ TracingTarget.lttng
      → link_names (map (generate_native_declaration naming info bare) probes)
        ≡ lttng_symbols (map (lttng_probe spec) probes)
  unfolding generate_native_declaration generate_native_probe_func generate_native_is_enabled
      native_func_name lttng_probe name_with_hash separate_probes
  link_names-lttng [] h = refl
  link_names-lttng (p ∷ probes) h =
      rw (h, generate_native_is_enabled) (rw (link_names-lttng probes h) refl)

  -- Dummies are not linked.
  link_names-no_op :
      (probes : List ProbeSpecification)
      → target_of info ≡ TracingTarget.no_op
      → link_names (map (generate_native_declaration naming info bare) probes) ≡ []
  unfolding generate_native_declaration generate_native_probe_func generate_native_is_enabled
  link_names-no_op [] h = refl
  link_names-no_op (p ∷ probes) h =
      rw (h, generate_native_is_enabled) (rw h (link_names-no_op probes h))

pub lifetimes_total :
    (args : List ProbeArgSpecification)
    → (ls : List String) × (args_lifetime_parameters args ≡ some ls)
unfolding args_lifetime_parameters lifetimes
lifetimes_total [] = ([], refl)
lifetimes_total (arg ∷ rest) =
    let (ls, first) = lifetimes_of_total arg.syn_typ_with_lifetimes in
    let (more, others) = lifetimes_total rest in
    (ls ++ more, rw (first, args_lifetime_parameters) (rw (others, args_lifetime_parameters) refl))

wrapper_for_total :
    (probe : String) (args : List ProbeArgSpecification)
    → (func : Option WrapperFunc) × (wrapper_for probe args ≡ some func)
unfolding wrapper_for
wrapper_for_total probe [] = (none, refl)
wrapper_for_total probe (first ∷ rest) =
    let (ls, total) = lifetimes_total (first ∷ rest) in
    elim (Option-cases (wrapper_for probe (first ∷ rest))) [
      | inr found ↦ found
      | inl panicked ↦ absurd (cc (rw (total, wrapper_for) at panicked))
    ]

pub wrapper_funcs_total :
    (probes : List ProbeSpecification)
    → (funcs : List (Option WrapperFunc)) × (wrapper_funcs probes ≡ some funcs)
unfolding wrapper_funcs generate_wrapper_func
wrapper_funcs_total [] = ([], refl)
wrapper_funcs_total (p ∷ probes) =
    let (func, first) = wrapper_for_total p.name p.args in
    let (funcs, others) = wrapper_funcs_total probes in
    (func ∷ funcs, rw (first, wrapper_funcs) (rw (others, wrapper_funcs) refl))

pub target-cases :
    (t : TracingTarget)
    → (t ≡ TracingTarget.disabled)
      ⊎ (t ≡ TracingTarget.stap)
      ⊎ (t ≡ TracingTarget.lttng)
      ⊎ (t ≡ TracingTarget.no_op)
target-cases TracingTarget.disabled = inl refl
target-cases TracingTarget.stap = inr (inl refl)
target-cases TracingTarget.lttng = inr (inr (inl refl))
target-cases TracingTarget.no_op = inr (inr (inr refl))

-- The symbols that the native wrapper for a target defines
abbrev pub symbols_of : TracingTarget → ProviderSpecification → List String
symbols_of TracingTarget.stap spec = stap_symbols (stap_wrapper spec)
symbols_of TracingTarget.lttng spec = lttng_symbols (lttng_wrapper spec)
symbols_of _ spec = []

abbrev IsReady : BuildInfo → Option ProcessedProviderTrait → Type 0
IsReady info (some processed) = Unit
IsReady info none = TracingTarget.is_enabled (target_of info) ≡ false

module _ (naming : Naming) (info : BuildInfo) (spec : ProviderSpecification) where
  abbrev LinkedAs : List String → ProviderTraitGenerator → Type 0
  LinkedAs symbols g =
      (impl : ImplMod) × (generate_impl_mod naming g ≡ some impl) × (linked_symbols impl ≡ symbols)

  abbrev extern_of : ProcessedProviderTrait → List (Option WrapperFunc) → ImplMod
  extern_of processed funcs =
      extern_c (mod_contents naming (generator_of info spec (some processed)) funcs)
        (map (generate_rust_is_enabled naming info (separate_probes spec).0)
          (separate_probes spec).1)
        (wrapper_lib processed.native_libs)

  generate_impl_mod-stap :
      (processed : ProcessedProviderTrait)
      → target_of info ≡ TracingTarget.stap
      → LinkedAs (stap_symbols (stap_wrapper spec)) (generator_of info spec (some processed))
  unfolding generate_impl_mod extern_mod mod_contents stap_wrapper separate_probes
  generate_impl_mod-stap processed stap =
      let (funcs, all) = wrapper_funcs_total spec.probes in
      (
        extern_of processed funcs,
        rw (stap, generate_impl_mod) (rw (all, generate_impl_mod) refl),
        link_names-stap naming info spec spec.probes stap,
      )

  generate_impl_mod-lttng :
      (processed : ProcessedProviderTrait)
      → target_of info ≡ TracingTarget.lttng
      → LinkedAs (lttng_symbols (lttng_wrapper spec)) (generator_of info spec (some processed))
  unfolding generate_impl_mod extern_mod mod_contents lttng_wrapper separate_probes
  generate_impl_mod-lttng processed lttng =
      let (funcs, all) = wrapper_funcs_total spec.probes in
      (
        extern_of processed funcs,
        rw (lttng, generate_impl_mod) (rw (all, generate_impl_mod) refl),
        link_names-lttng naming info spec spec.probes lttng,
      )

  generate_impl_mod-no_op :
      (processed : Option ProcessedProviderTrait)
      → target_of info ≡ TracingTarget.no_op
      → LinkedAs [] (generator_of info spec processed)
  unfolding generate_impl_mod mod_contents separate_probes
  generate_impl_mod-no_op processed no_op =
      let (funcs, all) = wrapper_funcs_total spec.probes in
      (
        dummy (mod_contents naming (generator_of info spec processed) funcs),
        rw (no_op, generate_impl_mod) (rw (all, generate_impl_mod) refl),
        link_names-no_op naming info spec spec.probes no_op,
      )

  generate_impl_mod-linked :
      (processed : Option ProcessedProviderTrait)
      → IsReady info processed
      → LinkedAs (symbols_of (target_of info) spec) (generator_of info spec processed)
  unfolding generate_impl_mod
  generate_impl_mod-linked (some processed) ready = elim (target-cases (target_of info)) [
    | inl disabled ↦ rw disabled (no_mod, rw (disabled, generate_impl_mod) refl, refl)
    | inr (inl stap) ↦ rw stap (generate_impl_mod-stap processed stap)
    | inr (inr (inl lttng)) ↦ rw lttng (generate_impl_mod-lttng processed lttng)
    | inr (inr (inr no_op)) ↦ rw no_op (generate_impl_mod-no_op (some processed) no_op)
  ]
  generate_impl_mod-linked none ready = elim (target-cases (target_of info)) [
    | inl disabled ↦ rw disabled (no_mod, rw (disabled, generate_impl_mod) refl, refl)
    | inr (inl stap) ↦ absurd (cc (rw stap at ready))
    | inr (inr (inl lttng)) ↦ absurd (cc (rw lttng at ready))
    | inr (inr (inr no_op)) ↦ rw no_op (generate_impl_mod-no_op none no_op)
  ]

-- What is shown of the generator that is made
abbrev pub Links : Naming → ProviderSpecification → ProviderTraitGenerator → Type 0
Links naming spec g =
    (impl : ImplMod) × (generate_impl_mod naming g ≡ some impl)
    × (linked_symbols impl ≡ symbols_of (target_of g.build_info) spec)

with_processed-Links :
    (naming : Naming) (info : BuildInfo) (spec : ProviderSpecification)
    (out : Outcome TracersError ProcessedProviderTrait)
    → OnReturn (Links naming spec) (with_processed info spec out)
unfolding with_processed TracingImplementation.tracing_target
with_processed-Links naming info spec (returns processed w) =
    on_returns _ w (generate_impl_mod-linked naming info spec (some processed) tt)
with_processed-Links naming info spec (fails e w) =
    on_returns _ w (generate_impl_mod-linked naming (fallback info) spec none refl)
with_processed-Links naming info spec (panics message w) = on_panics message w

pub new-Links :
    (naming : Naming) (tools : Tools) (env : Environment) (info : BuildInfo)
    (spec : ProviderSpecification) (w : World)
    → OnReturn (Links naming spec) (new tools env info spec w)
unfolding new
new-Links naming tools env info spec w =
    elim (Bool-cases (TracingImplementation.is_dynamic info.implementation)) [
      | inl dynamic ↦ rw (dynamic, new) (on_panics _ w)
      | inr static ↦
          rw (static, new)
            (elim (Bool-cases (TracingTarget.is_enabled (target_of info))) [
              | inl enabled ↦
                  rw (enabled, new)
                    (with_processed-Links naming info spec
                      (get_processed_provider_info tools env spec w))
              | inr disabled ↦
                  rw (disabled, new)
                    (on_returns _ w (generate_impl_mod-linked naming info spec none disabled))
            ])
    ]

-- Wherever the macro's generator is made, with the information of the build script or without, its
-- module is generated without a panic; and the native symbols that the module is linked with are, in
-- their order, exactly those that the wrapper of the target in use defines for the provider.
pub generate_impl_mod-links :
    (naming : Naming) (tools : Tools) (env : Environment) (info : BuildInfo)
    (spec : ProviderSpecification) (w : World) {g : ProviderTraitGenerator} {v : World}
    → new tools env info spec w ≡ returns g v
    → (impl : ImplMod) × (generate_impl_mod naming g ≡ some impl)
      × (linked_symbols impl ≡ symbols_of (target_of g.build_info) spec)
generate_impl_mod-links naming tools env info spec w made =
    OnReturn-returns (Links naming spec) (new tools env info spec w)
      (new-Links naming tools env info spec w) made
