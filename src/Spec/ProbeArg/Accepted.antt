-- ===== src/Spec/ProbeArg/Accepted.antt =====
-- Which arguments `from_fnarg` of spec/probe_arg.rs accepts, and what it makes of them.
use tracers.Prelude.{ℕ, String, some, ◌≡◌, refl, ◌⊎◌, inl, inr, Option-cases, length}
use tracers.Syn.Types.{SynType}
use tracers.Syn.Erase.{erase}
use tracers.Syn.Visited.{visited}
use tracers.Error.{Span, TracersError}
use tracers.ArgTypes.{ArgTypeInfo, from_syn_type}
use tracers.Spec.Partial.{pure, fail}
use tracers.Spec.ProbeArg.{
  ident, other, FnArg, receiver, typed, Printer, ProbeArgSpecification, lifetimes,
  from_ident_type_pair, from_fnarg, unsupported_type,
}
use tracers.Spec.ProbeArg.Lifetimes.{add_lifetimes_to_syn_type_lem, names_from}

-- What a specification records of an argument `name: typ`.
abbrev pub Records : String → ℕ → String → SynType → ArgTypeInfo → ProbeArgSpecification → Type 0
Records probe ordinal name typ info spec =
    (spec.name ≡ name)
    × (spec.ident ≡ name)
    × (spec.probe_name ≡ probe)
    × (spec.ordinal ≡ ordinal)
    × (spec.syn_typ ≡ typ)
    × (spec.arg_type_info ≡ info)
    × (erase spec.syn_typ_with_lifetimes ≡ erase typ)
    × (lifetimes spec ≡ some (names_from probe name 0 (length (visited typ))))

-- An argument in the form `name: type`, of a supported type.
abbrev pub IsProbeArg : FnArg → Type 0
IsProbeArg (typed (ident name) typ _ _) = (info : ArgTypeInfo) × (from_syn_type typ ≡ some info)
IsProbeArg (typed (other _) typ _ _) = ⊥
IsProbeArg (receiver _) = ⊥

-- The specification is that of the argument, at this place in this probe.
abbrev pub IsArgOf : String → ℕ → FnArg → ProbeArgSpecification → Type 0
IsArgOf probe ordinal (typed (ident name) typ _ _) spec =
    (info : ArgTypeInfo) × (from_syn_type typ ≡ some info)
    × Records probe ordinal name typ info spec
IsArgOf probe ordinal (typed (other _) typ _ _) spec = ⊥
IsArgOf probe ordinal (receiver _) spec = ⊥

module _ (printer : Printer) (probe : String) (ordinal : ℕ) where
  typed_lem :
      (name : String) (typ : SynType) (span type_span : Span) {info : ArgTypeInfo}
      → from_syn_type typ ≡ some info
      → (spec : ProbeArgSpecification) × (from_fnarg printer probe ordinal
            (typed (ident name) typ span type_span)
          ≡ pure spec)
        × Records probe ordinal name typ info spec
  unfolding from_fnarg from_ident_type_pair lifetimes
  typed_lem name typ span type_span {info} supported =
      let (typ', annotated, same, _, found) = add_lifetimes_to_syn_type_lem probe name typ in
      (
        record {
          name = name;
          probe_name = probe;
          ordinal = ordinal;
          ident = name;
          syn_typ = typ;
          syn_typ_with_lifetimes = typ';
          arg_type_info = info;
        },
        rw (supported, from_ident_type_pair) (rw annotated),
        (refl, refl, refl, refl, refl, refl, same, found),
      )

  -- A probe argument is accepted, and its specification is that of the argument.
  pub from_fnarg-accepts :
      (arg : FnArg)
      → IsProbeArg arg
      → (spec : ProbeArgSpecification) × (from_fnarg printer probe ordinal arg ≡ pure spec)
        × IsArgOf probe ordinal arg spec
  from_fnarg-accepts (typed (ident name) typ span type_span) (info, supported) =
      let (spec, made, records) = typed_lem name typ span type_span supported in
      (spec, made, (info, supported, records))
  from_fnarg-accepts (typed (other text) typ span type_span) h = elim h [ ]
  from_fnarg-accepts (receiver span) h = elim h [ ]

  -- Any other argument is refused with an error; reading one never panics.
  pub from_fnarg-cases :
      (arg : FnArg)
      → IsProbeArg arg
        ⊎ ((e : TracersError) × (from_fnarg printer probe ordinal arg ≡ fail e)
            × (¬ IsProbeArg arg))
  unfolding from_fnarg from_ident_type_pair
  from_fnarg-cases (receiver span) = inr (_, refl, λ h. h)
  from_fnarg-cases (typed (other text) typ span type_span) = inr (_, refl, λ h. h)
  from_fnarg-cases (typed (ident name) typ span type_span) =
      elim (Option-cases (from_syn_type typ)) [
        | inr (info, supported) ↦ inl (info, supported)
        | inl unknown ↦ inr (
          unsupported_type printer probe name typ type_span,
          rw (unknown, from_ident_type_pair),
          λ (info, supported). cc,
        )
      ]
