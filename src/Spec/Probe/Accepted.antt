-- ===== src/Spec/Probe/Accepted.antt =====
-- Which methods declare probes, and the specification of each (spec/probe.rs).
use tracers.Prelude.{
  ℕ, suc, String, true, false, none, List, [], ◌∷◌, ◌≡◌, refl, ◌⊎◌, inl, inr, arith, Option-cases,
}
use tracers.Syn.Types.{ReturnType, default, output}
use tracers.Error.{TracersError}
use tracers.Error.Raise.{invalid_provider}
use tracers.Spec.Partial.{pure, fail}
use tracers.Spec.ProbeArg.{FnArg, receiver, typed, Printer, ProbeArgSpecification}
use tracers.Spec.ProbeArg.Accepted.{IsProbeArg, IsArgOf, from_fnarg-accepts, from_fnarg-cases}
use tracers.Spec.Probe.{
  TraitItemMethod, ProbeSpecification, is_empty, is_default, starts_with_receiver, method_problem,
  from_fnargs, from_method,
}

abbrev pub AreProbeArgs : List FnArg → Type 0
AreProbeArgs [] = Unit
AreProbeArgs (arg ∷ rest) = IsProbeArg arg × AreProbeArgs rest

-- What the comment of `from_method` asks of a probe method.
abbrev pub IsProbeMethod : TraitItemMethod → Type 0
IsProbeMethod m =
    (m.has_default ≡ false)
    × (m.is_const ≡ false)
    × (m.is_unsafe ≡ false)
    × (m.is_async ≡ false)
    × (m.has_abi ≡ false)
    × (m.type_params ≡ [])
    × (m.is_variadic ≡ false)
    × (m.output ≡ default)
    × AreProbeArgs m.inputs

-- The specifications are those of the arguments, in their order, numbered from `n` on.
abbrev pub AreArgsOf : String → ℕ → List FnArg → List ProbeArgSpecification → Type 0
AreArgsOf probe n [] [] = Unit
AreArgsOf probe n (arg ∷ rest) (spec ∷ specs) =
    IsArgOf probe n arg spec × AreArgsOf probe (suc n) rest specs
AreArgsOf probe n _ _ = ⊥

module _ (printer : Printer) (probe : String) where
  from_fnargs-accepts :
      (n : ℕ) (args : List FnArg)
      → AreProbeArgs args
      → (specs : List ProbeArgSpecification) × (from_fnargs printer probe n args ≡ pure specs)
        × AreArgsOf probe n args specs
  unfolding from_fnargs
  from_fnargs-accepts n [] h = ([], refl, tt)
  from_fnargs-accepts n (arg ∷ rest) h =
      let (spec, made, one) = from_fnarg-accepts printer probe n arg h.0 in
      let (specs, made', all) = from_fnargs-accepts (suc n) rest h.1 in
      (spec ∷ specs, rw (made, made'), (one, all))

  from_fnargs-cases :
      (n : ℕ) (args : List FnArg)
      → AreProbeArgs args
        ⊎ ((e : TracersError) × (from_fnargs printer probe n args ≡ fail e) × (¬ AreProbeArgs args))
  unfolding from_fnargs
  from_fnargs-cases n [] = inl tt
  from_fnargs-cases n (arg ∷ rest) = elim (from_fnarg-cases printer probe n arg) [
    | inr (e, refused, not_one) ↦ inr (e, rw refused, λ h. not_one h.0)
    | inl one ↦ elim (from_fnargs-cases (suc n) rest) [
      | inl all ↦ inl (one, all)
      | inr (e, refused, not_all) ↦
          let (spec, made, _) = from_fnarg-accepts printer probe n arg one in
          inr (e, rw (made, refused), λ h. not_all h.1)
    ]
  ]

no_receiver : (args : List FnArg) → AreProbeArgs args → starts_with_receiver args ≡ false
no_receiver [] h = refl
no_receiver (typed pat typ span type_span ∷ rest) h = refl
no_receiver (receiver span ∷ rest) h = elim h.0 [ ]

-- The checks before the arguments find no problem with a probe method,
method_problem-none : (m : TraitItemMethod) → IsProbeMethod m → method_problem m ≡ none
unfolding method_problem
method_problem-none m
      (plain, not_const, safe, sync, rust, no_params, not_variadic, no_output, args) =
    rw (
      plain,
      not_const,
      safe,
      sync,
      rust,
      no_params,
      not_variadic,
      no_output,
      no_receiver m.inputs args,
    )

pub is_empty-true : (xs : List String) → is_empty xs ≡ true → xs ≡ []
is_empty-true [] h = refl
is_empty-true (x ∷ xs) h = absurd (cc)

is_default-true : (out : ReturnType) → is_default out ≡ true → out ≡ default
is_default-true default h = refl
is_default-true (output t) h = absurd (cc)

-- and a method with which they find none is one, as far as its arguments go.
IsProbeMethod-of-none :
    (m : TraitItemMethod) → method_problem m ≡ none → AreProbeArgs m.inputs → IsProbeMethod m
unfolding method_problem
IsProbeMethod-of-none m h args =
    let no_params : is_empty m.type_params ≡ true = ground arith in
    let no_output : is_default m.output ≡ true = ground arith in
    (
      ground arith,
      ground arith,
      ground arith,
      ground arith,
      ground arith,
      is_empty-true m.type_params no_params,
      ground arith,
      is_default-true m.output no_output,
      args,
    )

module _ (printer : Printer) (vis : String) (m : TraitItemMethod) where
  -- A method as the comment of `from_method` asks for declares a probe: its name is the method's, and
  -- its arguments are the method's, in their order.
  pub from_method-accepts :
      IsProbeMethod m
      → (spec : ProbeSpecification) × (from_method printer vis m ≡ pure spec)
        × (spec.name ≡ m.ident)
        × (spec.method_name ≡ m.ident)
        × (spec.original_method ≡ m)
        × (spec.vis ≡ vis)
        × AreArgsOf m.ident 0 m.inputs spec.args
  unfolding from_method
  from_method-accepts h =
      let (args, read, all) = from_fnargs-accepts printer m.ident 0 m.inputs h.8 in
      (
        record {
          name = m.ident;
          method_name = m.ident;
          original_method = m;
          vis = vis;
          span = m.span;
          args = args;
        },
        rw (method_problem-none m h, from_method) (rw read),
        refl,
        refl,
        refl,
        refl,
        all,
      )

  pub from_method-cases :
      IsProbeMethod m
      ⊎ ((e : TracersError) × (from_method printer vis m ≡ fail e) × (¬ IsProbeMethod m))
  unfolding from_method
  from_method-cases = elim (Option-cases (method_problem m)) [
    | inr (message, found) ↦ inr (
      invalid_provider message m.span,
      rw (found, from_method),
      λ h. absurd (cc (method_problem-none m h)),
    )
    | inl fine ↦ elim (from_fnargs-cases printer m.ident 0 m.inputs) [
      | inl all ↦ inl (IsProbeMethod-of-none m fine all)
      | inr (e, refused, not_all) ↦ inr (e, rw (fine, from_method) (rw refused), λ h. not_all h.8)
    ]
  ]

  -- Any other method is refused with an error.
  pub from_method-refuses :
      (¬ IsProbeMethod m) → (e : TracersError) × (from_method printer vis m ≡ fail e)
  from_method-refuses h = elim from_method-cases [
    | inl one ↦ absurd (h one)
    | inr (e, refused, _) ↦ (e, refused)
  ]
