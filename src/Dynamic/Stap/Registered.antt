-- ===== src/Dynamic/Stap/Registered.antt =====
-- Which call of libstapsdt gave each probe of a provider (tracers-dyn-stap/src/provider.rs).
use mathlib.Core.List.{Memᴰ}
use mathlib.Core.List.Memᴰ
use tracers.Prelude.{
  ℕ, String, some, List, [], ◌∷◌, ◌++◌, append_assoc, Result, ok, err, ◌≡◌, refl, Option-cases,
  Bool-cases, inl, inr, if◌then◌else◌,
}
use tracers.Dynamic.Stap.Steps.{Ended, registration, new-cases, create_probe-cases, load-cases}
use tracers.Dynamic.Stap.Found.{get-insert, fresh}
use tracers.Dynamic.{ProbeDefinition, definition_eq, definition_eq_iff}
use tracers.Dynamic.Stap.{
  DynamicError, Call, Log, Libstapsdt, StapProvider, StapProviderBuilder, empty_builder, insert,
  get, get_probe_unsafe, create_probes, load, fill, or_drop, build, define_provider, after, pure,
  provider_init,
}

module _ (base : Log) where
  -- Every probe of the provider is what its registration returned, in a call behind `base`.
  abbrev Registered : StapProvider → Log → Type 0
  Registered provider log =
      (made : Log) × (log ≡ base ++ made)
      × ((d : ProbeDefinition) (p : ℕ)
          → get d provider.probes ≡ some p
          → Memᴰ (registration provider d (some p)) made)

  abbrev OnEnd : Ended → Type 0
  OnEnd (ok provider, log) = Registered provider log
  OnEnd (err e, log) = Unit

  OnEnd-ok :
      (m : Ended) {provider : StapProvider} {log : Log}
      → m ≡ (ok provider, log)
      → OnEnd m
      → Registered provider log
  OnEnd-ok m same h = rw same at h

  Registered-called :
      (provider : StapProvider) (log : Log) (call : Call)
      → Registered provider log
      → Registered provider (log ++ call ∷ [])
  Registered-called provider log call (made, same, known) = (
    made ++ call ∷ [],
    rw same (append_assoc base made (call ∷ [])),
    λ d p found. Memᴰ.append_left (call ∷ []) (known d p found),
  )

  Registered-insert :
      (provider : StapProvider) (log : Log) (d : ProbeDefinition) (p : ℕ)
      → Registered provider log
      → Registered
          (record provider { probes = insert d p provider.probes })
          (log ++ registration provider d (some p) ∷ [])
  Registered-insert provider log d p (made, same, known) = (
    made ++ registration provider d (some p) ∷ [],
    rw same (append_assoc base made (registration provider d (some p) ∷ [])),
    λ e q found.
        let inserted : get e (insert d p provider.probes)
            ≡ (if definition_eq d e then some p else get e provider.probes) =
          get-insert d e p provider.probes in
        elim (Bool-cases (definition_eq d e)) [
          | inl equal ↦
              let one : d ≡ e = (definition_eq_iff d e).0 equal in
              let answer : p ≡ q = cc (rw equal at inserted, found) in
              rw (← one, ← answer) (Memᴰ.append_right made (Memᴰ.head refl))
          | inr differ ↦
              let before : get e provider.probes ≡ some q = cc (rw differ at inserted, found) in
              Memᴰ.append_left _ (known e q before)
        ],
  )

  or_drop-OnEnd : (provider : StapProvider) (m : Ended) → OnEnd m → OnEnd (or_drop provider m)
  unfolding or_drop
  or_drop-OnEnd provider (ok p, log) h = h
  or_drop-OnEnd provider (err e, log) h = tt

  module _ (lib : Libstapsdt) where
    load-OnEnd :
        (provider : StapProvider) (log : Log)
        → Registered provider log
        → OnEnd (after (λ (u : Unit {0}). pure provider) (load lib provider log))
    load-OnEnd provider log h = elim (load-cases lib provider log) [
      | inl fine ↦ rw fine (Registered-called provider log _ h)
      | inr (e, failed) ↦ rw failed tt
    ]

    after_created-OnEnd :
        (m : Ended)
        → OnEnd m
        → OnEnd (after (λ p log. after (λ (u : Unit {0}). pure p) (load lib p log)) m)
    after_created-OnEnd (ok p, log) h = load-OnEnd p log h
    after_created-OnEnd (err e, log) h = tt

    create_probes-OnEnd :
        (ds : List ProbeDefinition) (provider : StapProvider) (log : Log)
        → Registered provider log
        → OnEnd (create_probes lib provider ds log)
    unfolding create_probes
    create_probes-OnEnd [] provider log h = h
    create_probes-OnEnd (d ∷ ds) provider log h = elim (create_probe-cases lib provider d log) [
      | inl (e, same) ↦ rw same tt
      | inr (inl (e, same)) ↦ rw same tt
      | inr (inr (p, same)) ↦ rw same (
          create_probes-OnEnd ds (record provider { probes = insert d p provider.probes })
            (log ++ registration provider d (some p) ∷ []) (Registered-insert provider log d p h))
    ]

module _ (lib : Libstapsdt) (base : Log) where
  build-OnEnd :
      (builder : StapProviderBuilder) (name : String) → OnEnd base (build lib builder name base)
  unfolding build fill get
  build-OnEnd builder name = elim (new-cases lib name base) [
    | inl (e, same) ↦ rw same tt
    | inr (inl (e, same)) ↦ rw same tt
    | inr (inr (p, same)) ↦ rw same (
        or_drop-OnEnd base (fresh p)
          (fill lib (fresh p) builder.probes (base ++ provider_init name (some p) ∷ []))
          (after_created-OnEnd base lib
            (create_probes lib (fresh p) builder.probes (base ++ provider_init name (some p) ∷ []))
            (create_probes-OnEnd base lib builder.probes (fresh p)
              (base ++ provider_init name (some p) ∷ [])
              (provider_init name (some p) ∷ [], refl, λ d q found. absurd (cc)))))
  ]

  -- What a provider that `define_provider` returns answers for a definition is what libstapsdt
  -- returned when the definition was registered with this provider.
  pub define_provider-Registered :
      (name : String) (f : StapProviderBuilder → Result DynamicError StapProviderBuilder)
      {builder : StapProviderBuilder} {provider : StapProvider} {log : Log}
      → f empty_builder ≡ ok builder
      → define_provider lib name f base ≡ (ok provider, log)
      → (made : Log) × (log ≡ base ++ made)
        × ((d : ProbeDefinition) (p : ℕ)
            → get_probe_unsafe provider d ≡ ok p
            → Memᴰ (registration provider d (some p)) made)
  unfolding define_provider get_probe_unsafe
  define_provider-Registered name f {builder} {provider} {log} built defined =
      let (made, same, known) =
        OnEnd-ok base (build lib builder name base) (rw built at defined)
          (build-OnEnd builder name) in
      (
        made,
        same,
        λ d p answer. elim (Option-cases (get d provider.probes)) [
          | inl missing ↦ absurd (cc (rw (missing, get_probe_unsafe) at answer))
          | inr (q, found) ↦ known d p (cc (found, rw (found, get_probe_unsafe) at answer))
        ],
      )
