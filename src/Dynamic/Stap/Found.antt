-- ===== src/Dynamic/Stap/Found.antt =====
-- Which probes a provider has once it is built (tracers-dyn-stap/src/provider.rs).
use tracers.Prelude.{
  ℕ, String, Bool, true, false, Option, none, some, List, [], ◌∷◌, ◌++◌, ◌||◌, Result, ok, err, ◌≡◌,
  refl, arith, Option-cases, inl, inr, if◌then◌else◌,
}
use tracers.Dynamic.Stap.Steps.{Ended, registration, new-cases, create_probe-cases, load-cases}
use tracers.Dynamic.{ProbeDefinition, definition_eq, definition_eq_iff, has}
use tracers.Dynamic.Stap.{
  DynamicError, stap, probe_definition_not_found, Log, Native, Libstapsdt, StapProvider,
  StapProviderBuilder, empty_builder, insert, get, get_probe_unsafe, create_probe, create_probes,
  load, fill, or_drop, build, define_provider, after, pure, provider_init,
}

pub get-insert :
    (d j : ProbeDefinition) (p : ℕ) (m : List (ProbeDefinition × ℕ))
    → get j (insert d p m) ≡ (if definition_eq d j then some p else get j m)
unfolding get insert
get-insert d j p [] = refl
get-insert d j p ((e, q) ∷ m) =
    ground (
      arith,
      definition_eq_iff e d,
      definition_eq_iff e j,
      definition_eq_iff d j,
      get-insert d j p m,
    )

abbrev is_some : Option ℕ → Bool
is_some none = false
is_some (some p) = true

-- A predicate on what is returned, where something is.
abbrev OnOk : (StapProvider → Type 0) → Result DynamicError StapProvider × Log → Type 0
OnOk P (ok p, log) = P p
OnOk P (err e, log) = Unit

OnOk-imp :
    (P Q : StapProvider → Type 0) (m : Result DynamicError StapProvider × Log)
    → ((p : StapProvider) → P p → Q p)
    → OnOk P m
    → OnOk Q m
OnOk-imp P Q (ok p, log) f h = f p h
OnOk-imp P Q (err e, log) f h = tt

OnOk-ok :
    (P : StapProvider → Type 0) (m : Ended) {p : StapProvider} {log : Log}
    → m ≡ (ok p, log)
    → OnOk P m
    → P p
OnOk-ok P m same h = rw same at h

-- The step behind does not change the provider.
after-OnOk :
    (P : StapProvider → Type 0) (f : StapProvider → Native StapProvider)
    (m : Result DynamicError StapProvider × Log)
    → ((p : StapProvider) (log : Log) → P p → OnOk P (f p log))
    → OnOk P m
    → OnOk P (after f m)
after-OnOk P f (ok p, log) each h = each p log h
after-OnOk P f (err e, log) each h = tt

abbrev pub fresh : ℕ → StapProvider
fresh p = record { provider = p; probes = [] }

abbrev Has : ProbeDefinition → Bool → StapProvider → Type 0
Has j b p = is_some (get j p.probes) ≡ b

or_drop-OnOk :
    (P : StapProvider → Type 0) (provider : StapProvider) (m : Ended)
    → OnOk P m
    → OnOk P (or_drop provider m)
unfolding or_drop
or_drop-OnOk P provider (ok p, log) h = h
or_drop-OnOk P provider (err e, log) h = tt

module _ (lib : Libstapsdt) where
  create_probe-OnOk :
      (provider : StapProvider) (d : ProbeDefinition) (log : Log)
      → OnOk
          (λ p'. (p : ℕ) × (p'.probes ≡ insert d p provider.probes))
          (create_probe lib provider d log)
  create_probe-OnOk provider d log = elim (create_probe-cases lib provider d log) [
    | inl (e, same) ↦ rw same tt
    | inr (inl (e, same)) ↦ rw same tt
    | inr (inr (p, same)) ↦ rw same (p, refl)
  ]

  -- A probe is there if it was there or is among those created.
  create_probes-OnOk :
      (j : ProbeDefinition) (ds : List ProbeDefinition) (provider : StapProvider) (log : Log)
      → OnOk
          (Has j (has j ds || is_some (get j provider.probes)))
          (create_probes lib provider ds log)
  unfolding create_probes
  create_probes-OnOk j [] provider log = refl
  create_probes-OnOk j (d ∷ ds) provider log = elim (create_probe-cases lib provider d log) [
    | inl (e, same) ↦ rw same tt
    | inr (inl (e, same)) ↦ rw same tt
    | inr (inr (p, same)) ↦
        let moved : (has j ds || is_some (get j (insert d p provider.probes)))
            ≡ (has j (d ∷ ds) || is_some (get j provider.probes)) =
          ground (arith, get-insert d j p provider.probes) in
        rw same (
          rw (← moved) (
            create_probes-OnOk j ds (record provider { probes = insert d p provider.probes })
              (log ++ registration provider d (some p) ∷ [])))
  ]

  load-OnOk :
      (j : ProbeDefinition) (b : Bool) (provider : StapProvider) (log : Log)
      → Has j b provider
      → OnOk (Has j b) (after (λ (u : Unit {0}). pure provider) (load lib provider log))
  load-OnOk j b provider log h = elim (load-cases lib provider log) [
    | inl fine ↦ rw fine h
    | inr (e, failed) ↦ rw failed tt
  ]

  build-OnOk :
      (j : ProbeDefinition) (builder : StapProviderBuilder) (name : String) (log : Log)
      → OnOk (Has j (has j builder.probes)) (build lib builder name log)
  unfolding build fill get
  build-OnOk j builder name log = elim (new-cases lib name log) [
    | inl (e, same) ↦ rw same tt
    | inr (inl (e, same)) ↦ rw same tt
    | inr (inr (p, same)) ↦ rw same (
        or_drop-OnOk (Has j (has j builder.probes)) (fresh p)
          (fill lib (fresh p) builder.probes (log ++ provider_init name (some p) ∷ []))
          (after-OnOk (Has j (has j builder.probes))
            (λ p' log'. after (λ (u : Unit {0}). pure p') (load lib p' log'))
            (create_probes lib (fresh p) builder.probes (log ++ provider_init name (some p) ∷ []))
            (load-OnOk j (has j builder.probes))
            (let none_before : (has j builder.probes || false) ≡ has j builder.probes =
                ground arith in
              rw (← none_before) (
                create_probes-OnOk j builder.probes (fresh p)
                  (log ++ provider_init name (some p) ∷ [])))))
  ]

  -- A provider that `define_provider` returns has a probe for each definition that the closure put
  -- into the builder, with the same name and the same argument types, and answers every other
  -- definition with the error that it is not found.
  pub define_provider-get :
      (name : String) (f : StapProviderBuilder → Result DynamicError StapProviderBuilder)
      (log : Log) {builder : StapProviderBuilder} {provider : StapProvider} {log' : Log}
      → f empty_builder ≡ ok builder
      → define_provider lib name f log ≡ (ok provider, log')
      → (d : ProbeDefinition)
      → (has d builder.probes ≡ true → (p : ℕ) × (get_probe_unsafe provider d ≡ ok p))
        × (has d builder.probes ≡ false
            → get_probe_unsafe provider d ≡ err (stap (probe_definition_not_found d)))
  unfolding define_provider get_probe_unsafe
  define_provider-get name f log {builder} {provider} {log'} built defined d =
      let known : Has d (has d builder.probes) provider =
        OnOk-ok (Has d (has d builder.probes)) (build lib builder name log) (rw built at defined)
          (build-OnOk d builder name log) in
      elim (Option-cases (get d provider.probes)) [
        | inr (p, found) ↦
            (λ h. (p, rw (found, get_probe_unsafe)), λ h. absurd (cc (rw found at known)))
        | inl missing ↦
            (λ h. absurd (cc (rw missing at known)), λ h. rw (missing, get_probe_unsafe))
      ]
