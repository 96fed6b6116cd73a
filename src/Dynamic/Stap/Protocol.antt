-- ===== src/Dynamic/Stap/Protocol.antt =====
-- In which order the calls of libstapsdt come (tracers-dyn-stap/src/provider.rs).
use tracers.Prelude.{
  ℕ, String, Bool, true, false, Option, none, some, List, [], ◌∷◌, ◌++◌, map, Result, ok, err, ◌==◌,
  ◌≡◌, refl, ap, sym, ◌∙◌, ◌⊎◌, inl, inr, arith, if◌then◌else◌, append_assoc, append-nil, leb, ◌&&◌,
  length, take,
}
use tracers.Dynamic.{ProbeDefinition}
use tracers.Dynamic.Stap.{
  DynamicError, NativeArgType, Call, provider_init, provider_add_probe, provider_load,
  provider_unload, provider_destroy, Log, Libstapsdt, StapProvider, StapProviderBuilder, insert,
  create_probes, load, fill, or_drop, drop, build, after, pure, variadic, get_arg_type,
}
use tracers.Dynamic.Stap.Steps.{Ended, registration, new-cases, create_probe-cases, load-cases}

-- The life of a provider in the library
pub data Phase : Type 0 where
  absent : Phase
  made loaded unloaded : ℕ → Phase
  destroyed : Phase

-- The number of arguments is that of the arguments, and at most six.
abbrev pub fits : ℕ → List NativeArgType → Bool
fits n args = n == length args && leb n 6

-- Probes are added, at most six arguments each, before the provider is loaded; it is unloaded once and
-- then destroyed once; and nothing is called for it before it is made or after it is destroyed.
abbrev pub step : Phase → Call → Option Phase
step absent (provider_init _ none) = some absent
step absent (provider_init _ (some p)) = some (made p)
step (made p) (provider_add_probe q _ n args _) =
    if p == q && fits n args then some (made p) else none
step (made p) (provider_load q true) = if p == q then some (loaded p) else none
step (made p) (provider_load q false) = if p == q then some (made p) else none
step (made p) (provider_unload q) = if p == q then some (unloaded p) else none
step (loaded p) (provider_unload q) = if p == q then some (unloaded p) else none
step (unloaded p) (provider_destroy q) = if p == q then some destroyed else none
step _ _ = none

abbrev pub run_from : Option Phase → List Call → Option Phase
run_from none calls = none
run_from (some φ) [] = some φ
run_from (some φ) (c ∷ calls) = run_from (step φ c) calls

-- The calls lead from one phase to another.
abbrev pub Leads : Phase → List Call → Phase → Type 0
Leads φ calls ψ = run_from (some φ) calls ≡ some ψ

run_from-append :
    (φ : Option Phase) (cs ds : List Call) {ψ χ : Phase}
    → run_from φ cs ≡ some ψ
    → Leads ψ ds χ
    → run_from φ (cs ++ ds) ≡ some χ
run_from-append none cs ds h k = absurd (cc)
run_from-append (some φ) [] ds {ψ} {χ} h k = let same : φ ≡ ψ = cc in rw same k
run_from-append (some φ) (c ∷ cs) ds h k = run_from-append (step φ c) cs ds h k

eq_self : (p : ℕ) → (p == p) ≡ true
eq_self p = ground arith

-- The first six arguments are passed on, with their number.
pub variadic_lem :
    (args : List NativeArgType)
    → ((variadic args).1 ≡ take 6 args) × ((variadic args).0 ≡ length (take 6 args))
unfolding variadic
variadic_lem [] = (refl, refl)
variadic_lem (a ∷ []) = (refl, refl)
variadic_lem (a ∷ b ∷ []) = (refl, refl)
variadic_lem (a ∷ b ∷ c ∷ []) = (refl, refl)
variadic_lem (a ∷ b ∷ c ∷ d ∷ []) = (refl, refl)
variadic_lem (a ∷ b ∷ c ∷ d ∷ e ∷ []) = (refl, refl)
variadic_lem (a ∷ b ∷ c ∷ d ∷ e ∷ f ∷ rest) = (refl, refl)

fits-variadic : (args : List NativeArgType) → fits (variadic args).0 (variadic args).1 ≡ true
unfolding variadic
fits-variadic [] = refl
fits-variadic (a ∷ []) = refl
fits-variadic (a ∷ b ∷ []) = refl
fits-variadic (a ∷ b ∷ c ∷ []) = refl
fits-variadic (a ∷ b ∷ c ∷ d ∷ []) = refl
fits-variadic (a ∷ b ∷ c ∷ d ∷ e ∷ []) = refl
fits-variadic (a ∷ b ∷ c ∷ d ∷ e ∷ f ∷ rest) = refl

step-registration :
    (provider : StapProvider) (d : ProbeDefinition) (answer : Option ℕ)
    → step (made provider.provider) (registration provider d answer) ≡ some (made provider.provider)
step-registration provider d answer =
    rw (eq_self provider.provider, fits-variadic (map get_arg_type d.arg_types)) refl

abbrev pub OfProvider : ℕ → Result DynamicError StapProvider → Type 0
OfProvider p (ok provider) = provider.provider ≡ p
OfProvider p (err e) = Unit

-- What a result's calls lead to, from a phase, behind those of a log.
abbrev pub Ends : Phase → Log → (Result DynamicError StapProvider → Phase → Type 0) → Ended → Type 0
Ends φ log Q m =
    (calls : List Call) × (ψ : Phase) × (m.1 ≡ log ++ calls) × Leads φ calls ψ × Q m.0 ψ

abbrev Created : ℕ → Result DynamicError StapProvider → Phase → Type 0
Created p r ψ = (ψ ≡ made p) × OfProvider p r

abbrev Filled : ℕ → Result DynamicError StapProvider → Phase → Type 0
Filled p (ok provider) ψ = (ψ ≡ loaded p) × (provider.provider ≡ p)
Filled p (err e) ψ = ψ ≡ made p

abbrev pub Built : Result DynamicError StapProvider → Phase → Type 0
Built (ok provider) ψ = ψ ≡ loaded provider.provider
Built (err e) ψ = (ψ ≡ absent) ⊎ (ψ ≡ destroyed)

Leads-unload :
    (φ : Phase) (p : ℕ)
    → step φ (provider_unload p) ≡ some (unloaded p)
    → Leads φ (provider_unload p ∷ provider_destroy p ∷ []) destroyed
Leads-unload φ p h =
    let last : step (unloaded p) (provider_destroy p) ≡ some destroyed = rw (eq_self p) refl in
    ap (λ (o : Option Phase). run_from o (provider_destroy p ∷ [])) h
    ∙ ap (λ (o : Option Phase). run_from o []) last

module _ (lib : Libstapsdt) where
  create_probes-Ends :
      (ds : List ProbeDefinition) (provider : StapProvider) (log : Log)
      → Ends
          (made provider.provider)
          log
          (Created provider.provider)
          (create_probes lib provider ds log)
  unfolding create_probes
  create_probes-Ends [] provider log =
      ([], made provider.provider, sym (append-nil log), refl, (refl, refl))
  create_probes-Ends (d ∷ ds) provider log = elim (create_probe-cases lib provider d log) [
    | inl (e, same) ↦ rw same ([], made provider.provider, sym (append-nil log), refl, (refl, tt))
    | inr (inl (e, same)) ↦ rw same (
      registration provider d none ∷ [],
      made provider.provider,
      refl,
      ap (λ (φ : Option Phase). run_from φ []) (step-registration provider d none),
      (refl, tt),
    )
    | inr (inr (p, same)) ↦
        let (calls, ψ, logged, leads, created) =
          create_probes-Ends ds (record provider { probes = insert d p provider.probes })
            (log ++ registration provider d (some p) ∷ []) in
        rw same (
          registration provider d (some p) ∷ calls,
          ψ,
          logged ∙ append_assoc log (registration provider d (some p) ∷ []) calls,
          ap (λ (φ : Option Phase). run_from φ calls) (step-registration provider d (some p))
              ∙ leads,
          created,
        )
  ]

  load-after :
      (p : ℕ) (log : Log) (m : Ended)
      → Ends (made p) log (Created p) m
      → Ends (made p) log (Filled p) (
          after
            (λ provider log'. after (λ (u : Unit {0}). pure provider) (load lib provider log'))
            m)
  load-after p log (err e, log') (calls, ψ, logged, leads, created) =
      (calls, ψ, logged, leads, created.0)
  load-after p log (ok provider, log') (calls, ψ, logged, leads, created) =
      let call = λ (zero : Bool). provider_load provider.provider zero ∷ [] in
      let step_to : (zero : Bool) (χ : Phase)
          → step (made p) (provider_load p zero) ≡ some χ
          → Leads ψ (call zero) χ =
        λ zero χ h. rw (created.0, created.1) (ap (λ (φ : Option Phase). run_from φ []) h) in
      elim (load-cases lib provider log') [
        | inl fine ↦ rw fine (
          calls ++ call true,
          loaded p,
          ap (λ (l : Log). l ++ call true) logged ∙ append_assoc log calls (call true),
          run_from-append (some (made p)) calls (call true) leads
              (step_to true (loaded p) (rw (eq_self p) refl)),
          (refl, created.1),
        )
        | inr (e, failed) ↦ rw failed (
          calls ++ call false,
          made p,
          ap (λ (l : Log). l ++ call false) logged ∙ append_assoc log calls (call false),
          run_from-append (some (made p)) calls (call false) leads
              (step_to false (made p) (rw (eq_self p) refl)),
          refl,
        )
      ]

  or_drop-Ends :
      (p : ℕ) (log : Log) (m : Ended)
      → Ends (made p) log (Filled p) m
      → Ends (made p) log Built (or_drop (record { provider = p; probes = [] }) m)
  unfolding or_drop drop
  or_drop-Ends p log (ok provider, log') (calls, ψ, logged, leads, filled) =
      (calls, ψ, logged, leads, filled.0 ∙ ap loaded (sym filled.1))
  or_drop-Ends p log (err e, log') (calls, ψ, logged, leads, same) =
      let dropped = provider_unload p ∷ provider_destroy p ∷ [] in
      (
        calls ++ dropped,
        destroyed,
        ap (λ (l : Log). l ++ dropped) logged ∙ append_assoc log calls dropped,
        run_from-append (some (made p)) calls dropped leads
            (Leads-unload ψ p (rw same (rw (eq_self p) refl))),
        inr refl,
      )

  -- The calls that `build` makes, whatever the library answers, follow the protocol: they end with the
  -- provider loaded where it is returned, and with no provider, or a destroyed one, where there is an
  -- error.
  pub build-Ends :
      (builder : StapProviderBuilder) (name : String) (log : Log)
      → Ends absent log Built (build lib builder name log)
  unfolding build fill
  build-Ends builder name log = elim (new-cases lib name log) [
    | inl (e, same) ↦ rw same ([], absent, sym (append-nil log), refl, inl refl)
    | inr (inl (e, same)) ↦ rw same (provider_init name none ∷ [], absent, refl, refl, inl refl)
    | inr (inr (p, same)) ↦
        let (calls, ψ, logged, leads, built) =
          or_drop-Ends p (log ++ provider_init name (some p) ∷ [])
            (fill lib (record { provider = p; probes = [] }) builder.probes
              (log ++ provider_init name (some p) ∷ []))
            (load-after p (log ++ provider_init name (some p) ∷ [])
              (create_probes lib (record { provider = p; probes = [] }) builder.probes
                (log ++ provider_init name (some p) ∷ []))
              (create_probes-Ends builder.probes (record { provider = p; probes = [] })
                (log ++ provider_init name (some p) ∷ []))) in
        rw same (
          provider_init name (some p) ∷ calls,
          ψ,
          logged ∙ append_assoc log (provider_init name (some p) ∷ []) calls,
          leads,
          built,
        )
  ]

-- A provider that is dropped after it was loaded is unloaded and destroyed.
pub drop-Leads :
    (provider : StapProvider) (log : Log)
    → (calls : List Call) × (drop provider log ≡ log ++ calls)
      × Leads (loaded provider.provider) calls destroyed
unfolding drop
drop-Leads provider log = (
  provider_unload provider.provider ∷ provider_destroy provider.provider ∷ [],
  refl,
  Leads-unload (loaded provider.provider) provider.provider (rw (eq_self provider.provider) refl),
)
