-- ===== src/Gen/NativeCode/Target/Bounds.antt =====
-- How many arguments the LTTng templates give to a probe (gen/static/native_code/target/lttng.rs).
use tracers.Prelude.{ℕ, zero, suc, ◌≤◌, List, [], ◌∷◌, ◌≡◌, refl, length, take, length-map, arith}
use tracers.Spec.ProbeArg.{ProbeArgSpecification}
use tracers.Spec.Probe.{ProbeSpecification}
use tracers.Spec.Provider.{ProviderSpecification, name_with_hash}
use tracers.Gen.NativeCode.Target.{c_param}
use tracers.Gen.NativeCode.Target.Lttng.{
  TracepointEvent, lttng_events, LttngProbeCode, lttng_probe, lttng_wrapper, get_probe_args,
}

length-take_bound {ℓ} : {A : Type ℓ} (n : ℕ) (xs : List A) → length (take n xs) ≤ n
length-take_bound zero xs = omega arith
length-take_bound (suc n) [] = omega arith
length-take_bound (suc n) (x ∷ xs) = omega (arith, length-take_bound n xs)

-- LTTng's limits: at most 10 arguments of an event, and 2 more of `do_tracepoint`.
abbrev pub IsBounded : TracepointEvent → LttngProbeCode → Type 0
IsBounded event code =
    (length event.args ≤ 10) × (length code.tracepoint_args ≤ 12) × (event.args ≡ code.params)

abbrev pub AreBounded : List TracepointEvent → List LttngProbeCode → Type 0
AreBounded [] [] = Unit
AreBounded (event ∷ events) (code ∷ codes) = IsBounded event code × AreBounded events codes
AreBounded _ _ = ⊥

each-AreBounded :
    (spec : ProviderSpecification) (probes : List ProbeSpecification)
    → AreBounded
        (lttng_events (record spec { probes = probes }))
        (lttng_wrapper (record spec { probes = probes }))
unfolding lttng_events lttng_wrapper lttng_probe get_probe_args name_with_hash
each-AreBounded spec [] = tt
each-AreBounded spec (probe ∷ probes) =
    let few = length-take_bound 10 probe.args in
    (
      (
        omega (arith, few, length-map (take 10 probe.args) c_param),
        omega (
          arith,
          few,
          length-map (take 10 probe.args) (λ (arg : ProbeArgSpecification). arg.name),
        ),
        refl,
      ),
      each-AreBounded spec probes,
    )

-- For every provider, whatever the number of a probe's arguments, its event has at most 10 and the
-- wrapper passes at most 12 texts to `do_tracepoint`; and events and functions are made in the same
-- order, one for each probe, with the same parameters.
pub lttng_events-AreBounded :
    (spec : ProviderSpecification) → AreBounded (lttng_events spec) (lttng_wrapper spec)
lttng_events-AreBounded spec = each-AreBounded spec spec.probes
