-- ===== src/Spec/ProbeArg.antt =====
-- `ProbeArgSpecification` of tracers-codegen/src/spec/probe_arg.rs. How an element of syntax is
-- printed (`quote!` and its `to_string`) is a parameter.
pub mod Lifetimes
pub mod Distinct
pub mod Accepted
use tracers.Prelude.{
  ℕ, zero, suc, String, ◌<>◌, Option, none, some, List, [], ◌∷◌, ◌++◌, Result, ok, err,
}
use tracers.Prelude.Radix.{decimal}
use tracers.Syn.Types
use tracers.Syn.Types.{SynType}
use tracers.Syn.Transform.{Walked, walked, refused, out_of_fuel, Closure, transform_types}
use tracers.Syn.Relabel.{size}
use tracers.Error.{Span, TracersError, TracersResult}
use tracers.Error.Raise.{invalid_provider}
use tracers.ArgTypes.{ArgTypeInfo, from_syn_type}
use tracers.Spec.Partial.{Partial, pure, fail, ◌>>=◌}

-- `syn::Pat`, of which only a name is accepted.
pub data Pat : Type 0 where
  ident : String → Pat
  other : String → Pat

-- `syn::FnArg`, with the spans at which errors are reported.
pub data FnArg : Type 0 where
  receiver : Span → FnArg
  -- the name, the type, and the spans of the argument and of its type
  typed : Pat → SynType → Span → Span → FnArg

abbrev pub arg_span : FnArg → Span
arg_span (receiver span) = span
arg_span (typed _ _ span _) = span

pub record Printer : Type 0 where
  pub print_arg : FnArg → String
  pub print_type : SynType → String

pub record ProbeArgSpecification : Type 0 where
  pub name : String
  pub probe_name : String
  pub ordinal : ℕ
  pub ident : String
  pub syn_typ : SynType
  pub syn_typ_with_lifetimes : SynType
  pub arg_type_info : ArgTypeInfo

-- `format!("'{}_{}_{}", probe_name, arg_name, count)`
unfoldable pub lifetime_name : String → String → ℕ → String
unfolding decimal
lifetime_name probe_name arg_name count =
    "'" <> probe_name <> "_" <> arg_name <> "_" <> decimal count

-- The closure's state is its counter, which `generate_lifetime` counts up first.
unfoldable pub annotate : String → String → Closure ℕ
unfolding lifetime_name
annotate probe_name arg_name (Types.reference l mutability t) count =
    ok (
      Types.reference (some (lifetime_name probe_name arg_name (suc count))) mutability t,
      suc count,
    )
annotate probe_name arg_name t count = ok (t, count)

-- The result of a traversal, without the closure's state.
abbrev pub finish : {S A : Type 0} → Walked S A → Partial TracersError A
finish (walked a s) = pure a
finish (refused e) = fail e
finish out_of_fuel = none

unfoldable pub add_lifetimes_to_syn_type : String → String → SynType → Partial TracersError SynType
unfolding transform_types annotate size
add_lifetimes_to_syn_type probe_name arg_name typ =
    finish (transform_types (suc (size typ)) (annotate probe_name arg_name) typ 0)

-- The closure of `lifetimes`, with the vector that it pushes to.
unfoldable pub collect : Closure (List String)
collect (Types.reference (some l) mutability t) lifetimes =
    ok (Types.reference (some l) mutability t, lifetimes ++ l ∷ [])
collect t lifetimes = ok (t, lifetimes)

-- `unwrap` of the traversal's result
abbrev collected : Walked (List String) SynType → Option (List String)
collected (walked t lifetimes) = some lifetimes
collected (refused e) = none
collected out_of_fuel = none

unfoldable pub lifetimes_of : SynType → Option (List String)
unfolding transform_types collect size
lifetimes_of typ = collected (transform_types (suc (size typ)) collect typ [])

unfoldable pub lifetimes : ProbeArgSpecification → Option (List String)
unfolding lifetimes_of
lifetimes arg = lifetimes_of arg.syn_typ_with_lifetimes

module _ (printer : Printer) where
  unfoldable pub unsupported_type : String → String → SynType → Span → TracersError
  unfolding invalid_provider
  unsupported_type probe_name name typ span =
      invalid_provider
        ("The argument type '"
          <> printer.print_type typ
          <> "' of argument '"
          <> name
          <> "' on probe '"
          <> probe_name
          <> "' is not supported for probing.  Generally only the standard string, integer, and bool types, as well as references and Option's of the same, are supported")
        span

  unfoldable pub from_ident_type_pair :
      String → ℕ → String → SynType → Span → Partial TracersError ProbeArgSpecification
  unfolding from_syn_type add_lifetimes_to_syn_type unsupported_type
  from_ident_type_pair probe_name ordinal name typ span = elim (from_syn_type typ) [
    | some info ↦ do
      typ' ← add_lifetimes_to_syn_type probe_name name typ
      pure (record {
        name = name;
        probe_name = probe_name;
        ordinal = ordinal;
        ident = name;
        syn_typ = typ;
        syn_typ_with_lifetimes = typ';
        arg_type_info = info;
      })
    | none ↦ fail (unsupported_type probe_name name typ span)
  ]

  unfoldable pub from_fnarg : String → ℕ → FnArg → Partial TracersError ProbeArgSpecification
  unfolding from_ident_type_pair invalid_provider
  from_fnarg probe_name ordinal (typed (ident name) typ _ span) =
      from_ident_type_pair probe_name ordinal name typ span
  from_fnarg probe_name ordinal arg = fail (
      invalid_provider
        ("Probe method arguments should be in the form `name: TypeName`; "
          <> printer.print_arg arg
          <> " is not an expected argument")
        (arg_span arg))
