-- ===== src/Gen/Static/ProbeCall/Resolves.antt =====
-- What a generated probe call (gen/static/probe_call.rs) names is declared by the module of its provider
-- (gen/static/provider_trait.rs).
use mathlib.Core.List.{Memᴰ}
use mathlib.Core.List.Memᴰ
use mathlib.Core.Path.{subst}
use mathlib.Core.Option.{some-injective}
use tracers.Prelude.{
  String, ◌<>◌, Bool, true, false, Option, none, some, List, [], ◌∷◌, ◌++◌, map, ◌≡◌, refl, sym, ap,
  ◌∙◌, All, All-append, Bool-cases, inl, inr, ◌⊎◌, if◌then◌else◌,
}
use tracers.Tracing.TracingTarget.{TracingTarget}
use tracers.Tracing.TracingImplementation
use tracers.BuildRs.BuildInfo.{BuildInfo}
use tracers.Spec.Probe.{ProbeSpecification}
use tracers.Spec.Provider.{ProviderSpecification, separate_probes}
use tracers.Spec.ProbeCall.{ProbeCallDetails}
use tracers.Gen.NativeCode.{ProcessedProviderTrait}
use tracers.Gen.Static.Probe.{
  Naming, target_of, generate_native_declaration, generate_rust_is_enabled, wrapper_name,
}
use tracers.Gen.Static.ProviderTrait.{
  wrapper_funcs, generate_impl_mod, generator_of, extern_mod, mod_contents,
}
use tracers.Gen.Static.ProbeCall.{
  generate_probe_call, fire_code, wrap_statement, module_path, in_module,
}
use tracers.Gen.Static.ProviderTrait.Links.{target-cases, wrapper_funcs_total}
use tracers.Gen.Rust.{WrapperFunc, ImplMod, constant_false, unsafe_call, CallCode}
use tracers.Spec.ProbeCall.{SynPath}
use tracers.Gen.Static.ProbeCall.Declared.{
  names_of_wrappers, names_of_natives, names_of_enabled, functions, names_of_condition,
  names_of_wrap, names_of_call, natives_Mem, natives_enabled, enabled_Mem, wrappers_Mem, is_empty,
}

wrapping :
    (details : ProbeCallDetails) {names : List String} (path : SynPath)
    → (is_empty details.args ≡ false → Memᴰ (wrapper_name details.probe) names)
    → All (λ n. Memᴰ n names) (names_of_wrap (wrap_statement path details))
unfolding wrap_statement
wrapping details {names} path h = elim (cases details.args) [
  | inl none_given ↦ rw (none_given, wrap_statement) tt
  | inr (first, rest, given) ↦ rw (given, wrap_statement) (h (rw given refl), tt)
]
  where
    cases : (xs : List String) → (xs ≡ []) ⊎ ((x : String) × (rest : List String) × (xs ≡ x ∷ rest))
    cases [] = inl refl
    cases (x ∷ rest) = inr (x, rest, refl)

-- What a call's code names is in a list where the probe, its condition and its wrapper are.
fire_code-All :
    (names : List String) (real : Bool) (path : SynPath) (details : ProbeCallDetails)
    → (real ≡ true → Memᴰ (details.probe <> "_enabled") names)
    → (is_empty details.args ≡ false → Memᴰ (wrapper_name details.probe) names)
    → Memᴰ details.probe names
    → All (λ n. Memᴰ n names) (names_of_call (fire_code real path details))
unfolding fire_code
fire_code-All names real path details enabled wrap probe =
    All-append (λ n. Memᴰ n names)
      (names_of_condition
        (if real then unsafe_call path (details.probe <> "_enabled") else constant_false))
      (condition real enabled) _
      (All-append (λ n. Memᴰ n names) (names_of_wrap (wrap_statement path details))
        (wrapping details path wrap) _ (probe, tt))
  where
    condition :
        (b : Bool)
        → (b ≡ true → Memᴰ (details.probe <> "_enabled") names)
        → All
            (λ n. Memᴰ n names)
            (names_of_condition
              (if b then unsafe_call path (details.probe <> "_enabled") else constant_false))
    condition true h = (h refl, tt)
    condition false h = tt

pub in_module-fire :
    (real : Bool) (details : ProbeCallDetails) (path : Option SynPath) {code : CallCode}
    → in_module real details path ≡ some code
    → (p : SynPath) × (fire_code real p details ≡ code)
in_module-fire real details none generated = absurd (cc)
in_module-fire real details (some p) generated = (p, some-injective _ _ generated)

-- The call agrees with the probe that it names: as many arguments, and the name of the method.
abbrev pub Calls : ProbeCallDetails → ProbeSpecification → Type 0
Calls details p =
    (details.probe ≡ p.name) × (p.method_name ≡ p.name) × (is_empty details.args ≡ is_empty p.args)

fire_code-resolves :
    (probes : List ProbeSpecification) {funcs : List (Option WrapperFunc)} (others : List String)
    (real : Bool) (path : SynPath) (details : ProbeCallDetails) {p : ProbeSpecification}
    → wrapper_funcs probes ≡ some funcs
    → Memᴰ p probes
    → Calls details p
    → Memᴰ p.method_name others
    → (real ≡ true → Memᴰ (p.name <> "_enabled") others)
    → All
        (λ n. Memᴰ n (names_of_wrappers funcs ++ others))
        (names_of_call (fire_code real path details))
fire_code-resolves probes {funcs} others real path details all member (called, named, args) method
      enabled =
    fire_code-All (names_of_wrappers funcs ++ others) real path details
      (λ h.
        Memᴰ.append_right (names_of_wrappers funcs)
          (Memᴰ.cast (ap (λ n. n <> "_enabled") called) (enabled h)))
      (λ filled.
        Memᴰ.append_left others
          (Memᴰ.cast (ap wrapper_name called) (wrappers_Mem probes all member (sym args ∙ filled))))
      (Memᴰ.append_right (names_of_wrappers funcs) (Memᴰ.cast (called ∙ sym named) method))

abbrev Resolved : CallCode → ImplMod → Type 0
Resolved code impl = All (λ n. Memᴰ n (functions impl)) (names_of_call code)

module _ (naming : Naming) (info : BuildInfo) (spec : ProviderSpecification)
    {p : ProbeSpecification} (member : Memᴰ p spec.probes) where
  abbrev natives : List String
  natives =
      names_of_natives
        (map (generate_native_declaration naming info (separate_probes spec).0) spec.probes)

  abbrev enabled : List String
  enabled =
      names_of_enabled
        (map (generate_rust_is_enabled naming info (separate_probes spec).0) spec.probes)

  method_Mem : Memᴰ p.method_name natives
  method_Mem = natives_Mem naming info (separate_probes spec).0 spec.probes member

  generate_impl_mod-stap :
      (processed : ProcessedProviderTrait) (details : ProbeCallDetails) (path : SynPath)
      {impl : ImplMod}
      → target_of info ≡ TracingTarget.stap
      → Calls details p
      → generate_impl_mod naming (generator_of info spec (some processed)) ≡ some impl
      → Resolved (fire_code true path details) impl
  unfolding generate_impl_mod extern_mod mod_contents separate_probes
  generate_impl_mod-stap processed details path stap calls made =
      let (funcs, all) = wrapper_funcs_total spec.probes in
      subst (Resolved (fire_code true path details))
        (some-injective _ _ (rw (all, generate_impl_mod) at (rw (stap, generate_impl_mod) at made)))
        (fire_code-resolves spec.probes (natives ++ enabled) true path details all member calls
          (Memᴰ.append_left enabled method_Mem)
          (λ _.
            Memᴰ.append_right natives
              (enabled_Mem naming info (separate_probes spec).0 spec.probes stap member)))

  generate_impl_mod-lttng :
      (processed : ProcessedProviderTrait) (details : ProbeCallDetails) (path : SynPath)
      {impl : ImplMod}
      → target_of info ≡ TracingTarget.lttng
      → Calls details p
      → generate_impl_mod naming (generator_of info spec (some processed)) ≡ some impl
      → Resolved (fire_code true path details) impl
  unfolding generate_impl_mod extern_mod mod_contents separate_probes
  generate_impl_mod-lttng processed details path lttng calls made =
      let (funcs, all) = wrapper_funcs_total spec.probes in
      subst (Resolved (fire_code true path details))
        (some-injective _ _
          (rw (all, generate_impl_mod) at (rw (lttng, generate_impl_mod) at made)))
        (fire_code-resolves spec.probes (natives ++ enabled) true path details all member calls
          (Memᴰ.append_left enabled method_Mem)
          (λ _.
            Memᴰ.append_left enabled
              (natives_enabled naming info (separate_probes spec).0 spec.probes lttng member)))

  generate_impl_mod-no_op :
      (processed : Option ProcessedProviderTrait) (details : ProbeCallDetails) (path : SynPath)
      {impl : ImplMod}
      → target_of info ≡ TracingTarget.no_op
      → Calls details p
      → generate_impl_mod naming (generator_of info spec processed) ≡ some impl
      → Resolved (fire_code false path details) impl
  unfolding generate_impl_mod mod_contents separate_probes
  generate_impl_mod-no_op processed details path no_op calls made =
      let (funcs, all) = wrapper_funcs_total spec.probes in
      subst (Resolved (fire_code false path details))
        (some-injective _ _
          (rw (all, generate_impl_mod) at (rw (no_op, generate_impl_mod) at made)))
        (fire_code-resolves spec.probes natives false path details all member calls method_Mem
          (λ h. absurd (cc)))

-- Where the information of the build script is there, every function that the code of a call of a probe
-- names (the condition, the wrapper of the arguments and the probe itself) is declared by the module
-- that is generated for the provider, for every target.
pub generate_probe_call-resolves :
    (naming : Naming) (info : BuildInfo) (spec : ProviderSpecification)
    (processed : ProcessedProviderTrait) (details : ProbeCallDetails) {p : ProbeSpecification}
    {code : CallCode} {impl : ImplMod}
    → Memᴰ p spec.probes
    → Calls details p
    → generate_impl_mod naming (generator_of info spec (some processed)) ≡ some impl
    → generate_probe_call naming info details ≡ some code
    → All (λ n. Memᴰ n (functions impl)) (names_of_call code)
unfolding generate_probe_call
generate_probe_call-resolves naming info spec processed details {p} {code} {impl} member calls made
      generated =
    elim (Bool-cases (TracingImplementation.is_dynamic info.implementation)) [
      | inl dynamic ↦ absurd (cc (rw (dynamic, generate_probe_call) at generated))
      | inr static ↦ elim (target-cases (target_of info)) [
        | inl disabled ↦
            subst (λ c. Resolved c impl)
              (some-injective _ _ (
                rw (disabled, generate_probe_call) at
                  (rw (static, generate_probe_call) at generated)))
              tt
        | inr (inl stap) ↦
            let (path, same) =
              in_module-fire true details (module_path naming details.provider) (
                rw (stap, generate_probe_call) at
                  (rw (static, generate_probe_call) at generated)) in
            subst (λ c. Resolved c impl) same
              (generate_impl_mod-stap naming info spec member processed details path stap calls
                made)
        | inr (inr (inl lttng)) ↦
            let (path, same) = in_module-fire true details (module_path naming details.provider) (
              rw (lttng, generate_probe_call) at (rw (static, generate_probe_call) at generated)) in
            subst (λ c. Resolved c impl) same
              (generate_impl_mod-lttng naming info spec member processed details path lttng calls
                made)
        | inr (inr (inr no_op)) ↦
            let (path, same) = in_module-fire false details (module_path naming details.provider) (
              rw (no_op, generate_probe_call) at (rw (static, generate_probe_call) at generated)) in
            subst (λ c. Resolved c impl) same
              (generate_impl_mod-no_op naming info spec member (some processed) details path no_op
                calls made)
      ]
    ]
