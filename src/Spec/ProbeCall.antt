-- ===== src/Spec/ProbeCall.antt =====
-- `ProbeCallDetails` of tracers-codegen/src/spec/probe_call.rs, and `ProviderInitSpecification` of
-- spec/init_provider.rs. A path's segments are a `syn::Punctuated`: the values, and whether a
-- separator follows the last of them.
pub mod Split
use tracers.Prelude.{
  ℕ, String, ◌<>◌, Bool, true, false, Option, none, some, List, [], ◌∷◌, ◌++◌, Result, ok, err,
  if◌then◌else◌, length, ltb, map_ok,
}
use tracers.Std.FilePath.{init, last}
use tracers.Error.{Span, SynError, TracersError, TracersResult}
use tracers.Error.Raise.{invalid_call_expression, syn_error}
use tracers.Spec.Partial.{Partial, pure, fail}

pub record Punctuated : Type 0 where
  pub values : List String
  pub trailing : Bool

abbrev pub not_empty : List String → Bool
not_empty [] = false
not_empty (x ∷ xs) = true

abbrev pub popped : Option String → List String → Bool → Option ((String × Bool) × Punctuated)
popped none before trailing = none
popped (some v) before trailing =
    some ((v, trailing), record { values = before; trailing = not_empty before })

-- `pop`: the last value, with the separator behind it or not. A separator between values then trails.
abbrev pub pop : Punctuated → Option ((String × Bool) × Punctuated)
pop p = popped (last p.values) (init p.values) p.trailing

-- `push_value`, which panics where no separator trails and there is a value.
abbrev pub push_value : String → Punctuated → Option Punctuated
push_value v p = elim p.values [
  | [] ↦ some (record { values = v ∷ []; trailing = false })
  | w ∷ ws ↦
      if p.trailing then some (record { values = (w ∷ ws) ++ v ∷ []; trailing = false }) else none
]

-- `syn::Path`
pub record SynPath : Type 0 where
  pub leading : Bool
  pub segments : Punctuated

-- `syn::Expr`; every argument of a call is one text.
mutual
  pub data Expr : Type 0 where
    call : Expr → List String → Expr
    path : SynPath → Expr
    other : String → Expr

-- How an expression is printed and where it stands, parameters.
pub record Tokens : Type 0 where
  pub print : Expr → String
  pub span : Expr → Span

pub record ProbeCallDetails : Type 0 where
  pub call : Expr
  pub probe_fq_path : SynPath
  pub provider : SynPath
  pub probe : String
  pub args : List String

-- Drops the separator that trails: pops the value before it and pushes it back.
without_trailing : Punctuated → Option Punctuated
without_trailing segments =
    if segments.trailing
    then elim (pop segments) [ none ↦ none | some taken ↦ push_value taken.0.0 taken.1 ]
    else some segments

split_path : Expr → SynPath → List String → Partial TracersError ProbeCallDetails
unfolding without_trailing
split_path whole func args = elim (pop func.segments) [
  | none ↦ none
  | some taken ↦ elim (without_trailing taken.1) [
    | none ↦ none
    | some segments ↦ pure (record {
      call = whole;
      probe_fq_path = func;
      provider = record func { segments = segments };
      probe = taken.0.0;
      args = args;
    })
  ]
]

module _ (tokens : Tokens) where
  unfoldable pub missing_provider : SynPath → List String → TracersError
  unfolding invalid_call_expression
  missing_provider func args =
      invalid_call_expression
        ("The expression '"
          <> tokens.print (call (path func) args)
          <> "' is missing the name of the provider trait, eg 'MyProviderTrait::"
          <> tokens.print (call (path func) args)
          <> "'")
        (tokens.span (path func))

  -- `none` is a panic: an `unwrap` of no segment, or `push_value` where it is not allowed.
  unfoldable pub from_call_expression : Expr → Partial TracersError ProbeCallDetails
  unfolding split_path missing_provider invalid_call_expression
  from_call_expression (call (path func) args) =
      if ltb (length func.segments.values) 2
      then fail (missing_provider func args)
      else split_path (call (path func) args) func args
  from_call_expression (call func args) = fail (
      invalid_call_expression ("Unexpected expression for function call: " <> tokens.print func)
        (tokens.span func))
  from_call_expression e = fail (
      invalid_call_expression
        "The probe! macro requires the name of a provider trait and its probe method, e.g. MyProvider::myprobe(...)"
        (tokens.span e))

  -- `ProbeCallSpecification::from_token_stream`: `parse2` has read an expression, or failed.
  unfoldable pub from_token_stream : Result SynError Expr → Partial TracersError ProbeCallDetails
  unfolding from_call_expression syn_error
  from_token_stream (ok e) = from_call_expression e
  from_token_stream (err e) = fail (syn_error "Expecting a Rust function call expression" e)

-- `ProviderInitSpecification::from_token_stream`: the provider's path.
unfoldable pub init_from_token_stream : Result SynError SynPath → TracersResult SynPath
unfolding syn_error
init_from_token_stream (ok p) = ok p
init_from_token_stream (err e) = err (syn_error "Expected a type path" e)
