-- ===== src/Syn/Transform.antt =====
-- tracers-codegen/src/syn_helpers.rs: visiting every type within a type.
use tracers.Prelude.{ℕ, zero, suc, ok, err}
use tracers.Syn.Types.{
  SynType, slice, array, ptr, reference, bare_fn, tuple, path, trait_object, impl_trait, paren,
  group, infer, never, macro_call, verbatim, Types, end_types, elem, FnInputs, end_inputs, input,
  ReturnType, default, output, Segments, end_segments, segment, PathArguments, no_arguments,
  angle_bracketed, parenthesized, GenericArguments, end_arguments, type_argument, other_argument,
  Bounds, end_bounds, trait_bound, lifetime_bound,
}
use tracers.Error.{TracersError, TracersResult}

-- The visit returns with the closure's state, fails with the closure's error, or uses up its fuel.
pub data Walked (S : Type 0) (A : Type 0) : Type 0 where
  walked : A → S → Walked S A
  refused : TracersError → Walked S A
  out_of_fuel : Walked S A

abbrev pub Walk : Type 0 → Type 0 → Type 0
Walk S A = S → Walked S A

-- A closure `FnMut(&syn::Type) -> TracersResult<syn::Type>` over the state that it captures.
abbrev pub Closure : Type 0 → Type 0
Closure S = SynType → S → TracersResult (SynType × S)

module _ {S : Type 0} where
  module _ {A B : Type 0} where
    abbrev pub then_walk : Walked S A → (A → Walk S B) → Walked S B
    then_walk (walked a s) k = k a s
    then_walk (refused e) k = refused e
    then_walk out_of_fuel k = out_of_fuel

    infixl 5 ◌>>=◌
    abbrev pub ◌>>=◌ : Walk S A → (A → Walk S B) → Walk S B
    ◌>>=◌ m k s = then_walk (m s) k

  abbrev pub pure : {A : Type 0} → A → Walk S A
  pure a s = walked a s

  abbrev pub apply_result : TracersResult (SynType × S) → Walked S SynType
  apply_result (ok (t, s)) = walked t s
  apply_result (err e) = refused e

  -- `visit` is the recursive call on each type.
  module _ (visit : SynType → Walk S SynType) where
    unfoldable pub visit_types : Types → Walk S Types
    visit_types end_types = pure end_types
    visit_types (elem t ts) = do t' ← visit t; ts' ← visit_types ts; pure (elem t' ts')

    unfoldable pub visit_inputs : FnInputs → Walk S FnInputs
    visit_inputs end_inputs = pure end_inputs
    visit_inputs (input name t rest) = do
      t' ← visit t
      rest' ← visit_inputs rest
      pure (input name t' rest')

    unfoldable pub visit_output : ReturnType → Walk S ReturnType
    visit_output default = pure default
    visit_output (output t) = do t' ← visit t; pure (output t')

    unfoldable pub visit_generics : GenericArguments → Walk S GenericArguments
    visit_generics end_arguments = pure end_arguments
    visit_generics (type_argument t rest) = do
      t' ← visit t
      rest' ← visit_generics rest
      pure (type_argument t' rest')
    visit_generics (other_argument text rest) = do
      rest' ← visit_generics rest
      pure (other_argument text rest')

    unfoldable pub visit_arguments : PathArguments → Walk S PathArguments
    unfolding visit_generics visit_output visit_types
    visit_arguments no_arguments = pure no_arguments
    visit_arguments (angle_bracketed args) = do
      args' ← visit_generics args
      pure (angle_bracketed args')
    visit_arguments (parenthesized inputs out) = do
      out' ← visit_output out
      inputs' ← visit_types inputs
      pure (parenthesized inputs' out')

    unfoldable pub recurse_path : Segments → Walk S Segments
    unfolding visit_arguments
    recurse_path end_segments = pure end_segments
    recurse_path (segment name args rest) = do
      args' ← visit_arguments args
      rest' ← recurse_path rest
      pure (segment name args' rest')

    unfoldable pub visit_bounds : Bounds → Walk S Bounds
    unfolding recurse_path
    visit_bounds end_bounds = pure end_bounds
    visit_bounds (trait_bound modifier p rest) = do
      p' ← recurse_path p
      rest' ← visit_bounds rest
      pure (trait_bound modifier p' rest')
    visit_bounds (lifetime_bound l rest) = do
      rest' ← visit_bounds rest
      pure (lifetime_bound l rest')

    -- The `match new_typ` of `recurse_tree`.
    unfoldable pub visit_children : SynType → Walk S SynType
    unfolding visit_types visit_inputs visit_output recurse_path visit_bounds
    visit_children (slice t) = do t' ← visit t; pure (slice t')
    visit_children (array len t) = do t' ← visit t; pure (array len t')
    visit_children (ptr kind t) = do t' ← visit t; pure (ptr kind t')
    visit_children (reference l mutability t) = do t' ← visit t; pure (reference l mutability t')
    visit_children (bare_fn head inputs out) = do
      out' ← visit_output out
      inputs' ← visit_inputs inputs
      pure (bare_fn head inputs' out')
    visit_children (tuple ts) = do ts' ← visit_types ts; pure (tuple ts')
    visit_children (path front p) = do p' ← recurse_path p; pure (path front p')
    visit_children (trait_object front bounds) = do
      bounds' ← visit_bounds bounds
      pure (trait_object front bounds')
    visit_children (impl_trait bounds) = do bounds' ← visit_bounds bounds; pure (impl_trait bounds')
    visit_children (paren t) = do t' ← visit t; pure (paren t')
    visit_children (group t) = do t' ← visit t; pure (group t')
    visit_children infer = pure infer
    visit_children never = pure never
    visit_children (macro_call text) = pure (macro_call text)
    visit_children (verbatim text) = pure (verbatim text)

  -- The closure gets the type first, and the children of its result are visited. A closure could
  -- make types grow without end: hence the fuel.
  unfoldable pub recurse_tree : ℕ → Closure S → SynType → Walk S SynType
  unfolding visit_children
  recurse_tree zero f t s = out_of_fuel
  recurse_tree (suc fuel) f t s =
      then_walk (apply_result (f t s)) (visit_children (recurse_tree fuel f))

  unfoldable pub transform_types : ℕ → Closure S → SynType → Walk S SynType
  unfolding recurse_tree
  transform_types fuel f t = recurse_tree fuel f t
