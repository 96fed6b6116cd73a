-- ===== src/Dynamic/Stap/Steps.antt =====
-- The ends of each step that builds a provider, with the calls it has made (tracers-dyn-stap/src/provider.rs).
use tracers.Prelude.{
  ℕ, String, true, false, Option, none, some, [], ◌∷◌, ◌++◌, map, Result, ok, err, ◌≡◌, refl, ◌⊎◌,
  inl, inr, Bool-cases, Option-cases,
}
use tracers.Dynamic.{ProbeDefinition}
use tracers.Dynamic.Stap.{
  DynamicError, stap, nul_error, native_call_failed, Call, provider_init, provider_add_probe,
  provider_load, Log, Libstapsdt, StapProvider, insert, get_arg_type, variadic, has_nul, new,
  create_probe, load,
}

abbrev pub Ended : Type 0
Ended = Result DynamicError StapProvider × Log

-- The call that registers a probe
abbrev pub registration : StapProvider → ProbeDefinition → Option ℕ → Call
registration provider d answer =
    provider_add_probe provider.provider d.name (variadic (map get_arg_type d.arg_types)).0
      (variadic (map get_arg_type d.arg_types)).1 answer

module _ (lib : Libstapsdt) where
  pub new-cases :
      (name : String) (log : Log)
      → ((e : DynamicError) × (new lib name log ≡ (err e, log)))
        ⊎ ((e : DynamicError) × (new lib name log ≡ (err e, log ++ provider_init name none ∷ [])))
        ⊎ ((p : ℕ) × (new lib name log ≡ (
          ok (record { provider = p; probes = [] }),
          log ++ provider_init name (some p) ∷ [],
        )))
  unfolding new
  new-cases name log = elim (Bool-cases (has_nul name)) [
    | inl nul ↦ inl (nul_error name, rw nul)
    | inr fine ↦ elim (Option-cases (lib.init log name)) [
      | inl null ↦ inr (inl (stap (native_call_failed "providerInit"), rw fine (rw null refl)))
      | inr (p, answer) ↦ inr (inr (p, rw fine (rw answer refl)))
    ]
  ]

  pub create_probe-cases :
      (provider : StapProvider) (d : ProbeDefinition) (log : Log)
      → ((e : DynamicError) × (create_probe lib provider d log ≡ (err e, log)))
        ⊎ ((e : DynamicError) × (create_probe lib provider d log
              ≡ (err e, log ++ registration provider d none ∷ [])))
        ⊎ ((p : ℕ) × (create_probe lib provider d log ≡ (
          ok (record provider { probes = insert d p provider.probes }),
          log ++ registration provider d (some p) ∷ [],
        )))
  unfolding create_probe
  create_probe-cases provider d log = elim (Bool-cases (has_nul d.name)) [
    | inl nul ↦ inl (nul_error d.name, rw nul)
    | inr fine ↦
        let args = variadic (map get_arg_type d.arg_types) in
        elim (Option-cases (lib.add log provider.provider d.name args.0 args.1)) [
          | inl null ↦
              inr (inl (stap (native_call_failed "providerAddProbe"), rw fine (rw null refl)))
          | inr (p, answer) ↦ inr (inr (p, rw fine (rw answer refl)))
        ]
  ]

  pub load-cases :
      (provider : StapProvider) (log : Log)
      → (load lib provider log ≡ (ok tt, log ++ provider_load provider.provider true ∷ []))
        ⊎ ((e : DynamicError) × (load lib provider log
              ≡ (err e, log ++ provider_load provider.provider false ∷ [])))
  unfolding load
  load-cases provider log = elim (Bool-cases (lib.load log provider.provider)) [
    | inl zero ↦ inl (rw zero refl)
    | inr failed ↦ inr (stap (native_call_failed "providerLoad"), rw failed refl)
  ]
