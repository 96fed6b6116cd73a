-- ===== src/Gen/Dynamic/Links.antt =====
-- The generated code of a dynamic provider (gen/dynamic/provider_trait.rs), run on the builder and the
-- provider of tracers-dyn-stap. How rustc reads the type of an argument is a parameter.
use mathlib.Core.List.{Memᴰ}
use tracers.Prelude.{
  ℕ, String, Bool, true, some, List, [], ◌∷◌, ◌++◌, map, Result, ok, err, ◌||◌, ◌≡◌, refl, sym, ◌∙◌,
  All, arith, Result-cases, inl, inr,
}
use tracers.Syn.Types.{SynType}
use tracers.Core.ArgType.{ArgType}
use tracers.Spec.ProbeArg.{ProbeArgSpecification}
use tracers.Spec.Probe.{ProbeSpecification}
use tracers.Dynamic.{
  ProbeDefinition, new as new_definition, get_probe, has, definition_eq, definition_eq_iff,
}
use tracers.Dynamic.Stap.{
  DynamicError, StapProviderBuilder, StapProvider, Libstapsdt, Log, empty_builder, add_probe,
  get_probe_unsafe, define_provider,
}
use tracers.Dynamic.Stap.Builder.{IsValid, add_probe-IsValid}
use tracers.Dynamic.Stap.Found.{define_provider-get}
use tracers.Dynamic.Stap.Registered.{define_provider-Registered}
use tracers.Dynamic.Stap.Steps.{registration}
use tracers.Gen.Rust.{Tuple, unit, elements}
use tracers.Gen.Rust.Dynamic.{AddProbeCall, StructInitializer, DefineProviderCall, ImplMod}
use tracers.Gen.Common.{
  generate_tuple, args_as_tuple_type_without_lifetimes, args_as_tuple_type_with_lifetimes,
}
use tracers.Gen.Static.ProviderTrait.Links.{lifetimes_total}
use tracers.Gen.Dynamic.{
  Naming, ProviderTraitGenerator, impl_mod_with, generate_impl_mod,
  generate_provider_struct_type_params, all_lifetimes, generate_add_probe_call,
  generate_define_provider_call, generate_struct_member_initialization,
}

pub all_lifetimes_total :
    (probes : List ProbeSpecification)
    → (lifetimes : List String) × (all_lifetimes probes ≡ some lifetimes)
unfolding all_lifetimes
all_lifetimes_total [] = ([], refl)
all_lifetimes_total (probe ∷ probes) =
    let (ls, first) = lifetimes_total probe.args in
    let (more, others) = all_lifetimes_total probes in
    (ls ++ more, rw (first, all_lifetimes) (rw (others, all_lifetimes) refl))

or_true : (b : Bool) → (b || true) ≡ true
or_true b = ground arith

module _ (resolve : SynType → ArgType) where
  -- The types of a tuple's elements
  abbrev pub tuple_types : Tuple SynType → List ArgType
  tuple_types unit = []
  tuple_types (elements types) = map resolve types

  -- What the closure of `define_provider` does: the calls in their order, up to the first that fails.
  abbrev pub run_calls :
      List AddProbeCall → StapProviderBuilder → Result DynamicError StapProviderBuilder
  run_calls [] builder = ok builder
  run_calls (call ∷ calls) builder = elim (add_probe builder call.name (tuple_types call.args)) [
    | err e ↦ err e
    | ok builder' ↦ run_calls calls builder'
  ]

  -- The member's initialiser, on the provider that was defined
  abbrev pub initialize : StapProvider → StructInitializer → Result DynamicError ℕ
  initialize provider init = get_probe (get_probe_unsafe provider) init.name (tuple_types init.args)

  abbrev definition_of : AddProbeCall → ProbeDefinition
  definition_of call = new_definition call.name (tuple_types call.args)

  has-append :
      (d : ProbeDefinition) (ds : List ProbeDefinition) (e : ProbeDefinition)
      → has d (ds ++ e ∷ []) ≡ (has d ds || definition_eq e d)
  has-append d [] e = ground arith
  has-append d (f ∷ ds) e = ground (arith, has-append d ds e)

  run_calls-has :
      (calls : List AddProbeCall) (builder : StapProviderBuilder) {builder' : StapProviderBuilder}
      → IsValid builder
      → run_calls calls builder ≡ ok builder'
      → ((d : ProbeDefinition) → has d builder.probes ≡ true → has d builder'.probes ≡ true)
        × All (λ call. has (definition_of call) builder'.probes ≡ true) calls
  run_calls-has [] builder {builder'} valid ran =
      let same : builder ≡ builder' = cc in (λ d h. rw (← same) h, tt)
  run_calls-has (call ∷ calls) builder {builder'} valid ran =
      elim (Result-cases (add_probe builder call.name (tuple_types call.args))) [
        | inr (e, failed) ↦ absurd (cc (rw (failed, run_calls) at ran))
        | inl (between, added) ↦
            let (valid', behind) =
              add_probe-IsValid builder call.name (tuple_types call.args) valid added in
            let (kept, others) =
              run_calls-has calls between valid' (rw (added, run_calls) at ran) in
            let here : (d : ProbeDefinition)
                → has d between.probes
                  ≡ (has d builder.probes || definition_eq (definition_of call) d) =
              λ d. rw behind (has-append d builder.probes (definition_of call)) in
            (
              λ d h. kept d (here d ∙ rw h refl),
              (
                kept (definition_of call) (
                    here (definition_of call)
                    ∙ rw ((definition_eq_iff (definition_of call) (definition_of call)).1 refl)
                        (or_true (has (definition_of call) builder.probes))),
                others,
              ),
            )
      ]

  -- rustc reads an argument's type with lifetimes as the one without.
  abbrev pub IsResolved : List ProbeArgSpecification → Type 0
  IsResolved args =
      All
        (λ (arg : ProbeArgSpecification). resolve arg.syn_typ_with_lifetimes ≡ resolve arg.syn_typ)
        args

  tuple_types-generate_tuple :
      (types : List SynType) → tuple_types (generate_tuple types) ≡ map resolve types
  unfolding generate_tuple
  tuple_types-generate_tuple [] = refl
  tuple_types-generate_tuple (t ∷ types) = refl

  map-elided :
      (args : List ProbeArgSpecification)
      → IsResolved args
      → map resolve (map (λ (arg : ProbeArgSpecification). arg.syn_typ_with_lifetimes) args)
        ≡ map resolve (map (λ (arg : ProbeArgSpecification). arg.syn_typ) args)
  map-elided [] resolved = refl
  map-elided (arg ∷ args) (same, resolved) = rw (same, map-elided args resolved) refl

  tuple_types-elided :
      (probe : ProbeSpecification)
      → IsResolved probe.args
      → tuple_types (args_as_tuple_type_with_lifetimes probe)
        ≡ tuple_types (args_as_tuple_type_without_lifetimes probe)
  unfolding args_as_tuple_type_with_lifetimes args_as_tuple_type_without_lifetimes
  tuple_types-elided probe resolved =
      tuple_types-generate_tuple
        (map (λ (arg : ProbeArgSpecification). arg.syn_typ_with_lifetimes) probe.args)
      ∙ map-elided probe.args resolved
      ∙ sym (
          tuple_types-generate_tuple
            (map (λ (arg : ProbeArgSpecification). arg.syn_typ) probe.args))

  module _ (lib : Libstapsdt) where
    -- `SystemTracer::define_provider`, as the generated module calls it
    abbrev pub run : DefineProviderCall → Log → Result DynamicError StapProvider × Log
    run call = define_provider lib call.provider_name (run_calls call.add_probe_calls)

    -- The closure has returned where the provider is there.
    run-built :
        (call : DefineProviderCall) (log : Log) {provider : StapProvider} {log' : Log}
        → run call log ≡ (ok provider, log')
        → (builder : StapProviderBuilder) × (run_calls call.add_probe_calls empty_builder
            ≡ ok builder)
    unfolding define_provider
    run-built call log defined =
        elim (Result-cases (run_calls call.add_probe_calls empty_builder)) [
          | inl found ↦ found
          | inr (e, failed) ↦ absurd (cc (rw (failed, define_provider) at defined))
        ]

    -- The initialiser gets the probe that libstapsdt returned, among `made`, for its definition.
    abbrev pub GetsProbe : StapProvider → Log → StructInitializer → Type 0
    GetsProbe provider made init =
        (p : ℕ) × (initialize provider init ≡ ok p)
        × Memᴰ (registration provider (new_definition init.name (tuple_types init.args)) (some p))
            made

    initialize_total :
        (provider : StapProvider) (made : Log)
        → ((d : ProbeDefinition) (p : ℕ)
            → get_probe_unsafe provider d ≡ ok p
            → Memᴰ (registration provider d (some p)) made)
        → (probes : List ProbeSpecification)
        → All (λ (probe : ProbeSpecification). IsResolved probe.args) probes
        → All
            (λ call. (p : ℕ) × (get_probe_unsafe provider (definition_of call) ≡ ok p))
            (map generate_add_probe_call probes)
        → All (GetsProbe provider made) (map generate_struct_member_initialization probes)
    unfolding generate_add_probe_call generate_struct_member_initialization get_probe
    initialize_total provider made registers [] resolved known = tt
    initialize_total provider made registers (probe ∷ probes) (same, resolved) ((p, here), known) =
        let answer : get_probe_unsafe provider
              (new_definition probe.name (tuple_types (args_as_tuple_type_without_lifetimes probe)))
            ≡ ok p =
          rw (← tuple_types-elided probe same) here in
        (
          (p, answer, registers _ p answer),
          initialize_total provider made registers probes resolved known,
        )

    known_calls :
        (call : DefineProviderCall) (log : Log) {provider : StapProvider} {log' : Log}
        {builder : StapProviderBuilder}
        → run_calls call.add_probe_calls empty_builder ≡ ok builder
        → run call log ≡ (ok provider, log')
        → (calls : List AddProbeCall) → All (λ c. has (definition_of c) builder.probes ≡ true) calls
        → All (λ c. (p : ℕ) × (get_probe_unsafe provider (definition_of c) ≡ ok p)) calls
    known_calls call log built defined [] added = tt
    known_calls call log built defined (c ∷ calls) (here, added) = (
      (define_provider-get lib call.provider_name (run_calls call.add_probe_calls) log built defined
            (definition_of c)).0
          here,
      known_calls call log built defined calls added,
    )

    -- Where the call of `define_provider` of a dynamic provider returns a provider, and the types of the
    -- arguments with lifetimes are read as those without, the provider's module is generated without a
    -- panic, with that call, and none of the initialisers of its struct fails: each member gets the
    -- pointer that libstapsdt returned, during that call, when a probe of the member's name and types
    -- was added to that provider.
    pub generate_impl_mod-initializes :
        (naming : Naming) (g : ProviderTraitGenerator) (log : Log) {provider : StapProvider}
        {log' : Log}
        → run (generate_define_provider_call g.spec g.probes) log ≡ (ok provider, log')
        → All (λ (probe : ProbeSpecification). IsResolved probe.args) g.probes
        → (impl : ImplMod) × (made : Log) × (generate_impl_mod naming g ≡ some impl)
          × (impl.define_provider_call ≡ generate_define_provider_call g.spec g.probes)
          × (log' ≡ log ++ made)
          × All (GetsProbe provider made) impl.struct_initializers
    unfolding generate_impl_mod generate_provider_struct_type_params impl_mod_with
        generate_define_provider_call
    generate_impl_mod-initializes naming g log {provider} defined resolved =
        let (lifetimes, total) = all_lifetimes_total g.probes in
        let call = generate_define_provider_call g.spec g.probes in
        let (builder, built) = run-built call log defined in
        let (made, extended, registers) =
          define_provider-Registered lib log call.provider_name (run_calls call.add_probe_calls)
            built defined in
        (
          impl_mod_with naming g ("'a" ∷ lifetimes),
          made,
          rw (total, generate_impl_mod) refl,
          refl,
          extended,
          initialize_total provider made registers g.probes resolved (
              known_calls call log built defined call.add_probe_calls
                (run_calls-has call.add_probe_calls empty_builder
                  (record { named = tt; distinct = tt }) built).1),
        )
