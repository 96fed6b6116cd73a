-- ===== src/Spec/Probe.antt =====
-- `ProbeSpecification` of tracers-codegen/src/spec/probe.rs: the probe that a trait method declares.
pub mod Accepted
use tracers.Prelude.{
  ℕ, zero, suc, String, Bool, true, false, ◌||◌, Option, none, some, List, [], ◌∷◌, Result, ok, err,
  if◌then◌else◌,
}
use tracers.Syn.Types.{ReturnType, default, output}
use tracers.Error.{Span, TracersError}
use tracers.Error.Raise.{invalid_provider}
use tracers.Spec.Partial.{Partial, pure, fail, ◌>>=◌}
use tracers.Spec.ProbeArg.{FnArg, receiver, typed, Printer, ProbeArgSpecification, from_fnarg}

-- `syn::TraitItemMethod`: what of it the code looks at. A flag says that an optional part is there.
pub record TraitItemMethod : Type 0 where
  pub ident : String
  pub has_default : Bool
  pub is_const : Bool
  pub is_unsafe : Bool
  pub is_async : Bool
  pub has_abi : Bool
  pub type_params : List String
  pub is_variadic : Bool
  pub output : ReturnType
  pub inputs : List FnArg
  pub span : Span

pub record ProbeSpecification : Type 0 where
  pub name : String
  pub method_name : String
  pub original_method : TraitItemMethod
  pub vis : String
  pub span : Span
  pub args : List ProbeArgSpecification

abbrev pub is_empty {ℓ} : {A : Type ℓ} → List A → Bool
is_empty [] = true
is_empty (x ∷ xs) = false

abbrev pub is_default : ReturnType → Bool
is_default default = true
is_default (output t) = false

abbrev pub starts_with_receiver : List FnArg → Bool
starts_with_receiver (receiver _ ∷ _) = true
starts_with_receiver _ = false

-- The checks before the arguments are read, in their order: the message of the first that fails.
unfoldable pub method_problem : TraitItemMethod → Option String
method_problem m =
    if m.has_default
    then some "Probe methods must NOT have a default implementation"
    else if m.is_const || (m.is_unsafe || (m.is_async || m.has_abi))
    then some "Probe methods cannot be `const`, `unsafe`, `async`, or `extern \"C\"`"
    else if (if is_empty m.type_params then false else true)
    then some
        "Probe methods must not take any type parameters; generics are not supported in probes"
    else if m.is_variadic
    then some "Probe methods cannot have variadic arguments"
    else if (if is_default m.output then false else true)
    then some "Probe methods must not have an explicit return type (they return `()` implicitly)"
    else if starts_with_receiver m.inputs
    then some "Probe methods must not have any `&self` or `self` args"
    else none

module _ (printer : Printer) where
  -- `for (idx, arg) in inputs.iter().enumerate()`, from `idx` on
  unfoldable pub from_fnargs :
      String → ℕ → List FnArg → Partial TracersError (List ProbeArgSpecification)
  unfolding from_fnarg
  from_fnargs probe idx [] = pure []
  from_fnargs probe idx (arg ∷ rest) = do
    spec ← from_fnarg printer probe idx arg
    specs ← from_fnargs probe (suc idx) rest
    pure (spec ∷ specs)

  -- `vis` is the visibility of the trait.
  unfoldable pub from_method : String → TraitItemMethod → Partial TracersError ProbeSpecification
  unfolding method_problem from_fnargs invalid_provider
  from_method vis method = elim (method_problem method) [
    | some message ↦ fail (invalid_provider message method.span)
    | none ↦ do
      args ← from_fnargs method.ident 0 method.inputs
      pure (record {
        name = method.ident;
        method_name = method.ident;
        original_method = method;
        vis = vis;
        span = method.span;
        args = args;
      })
  ]
