-- ===== src/Syn/Relabel.antt =====
-- Closures for `transform_types` that change nothing but the lifetimes of references: what they make
-- of a type, by recursion on the type, and that the traversal makes the same of it, with enough fuel.
use tracers.Prelude.{ℕ, zero, suc, ◌+◌, ◌<◌, String, Option, ok, ◌≡◌, refl, arith}
use tracers.Syn.Types.{
  SynType, slice, array, ptr, reference, bare_fn, tuple, path, trait_object, impl_trait, paren,
  group, infer, never, macro_call, verbatim, Types, end_types, elem, FnInputs, end_inputs, input,
  ReturnType, default, output, Segments, end_segments, segment, PathArguments, no_arguments,
  angle_bracketed, parenthesized, GenericArguments, end_arguments, type_argument, other_argument,
  Bounds, end_bounds, trait_bound, lifetime_bound,
}
use tracers.Syn.Transform.{
  Walked, walked, Walk, Closure, then_walk, visit_types, visit_inputs, visit_output, visit_generics,
  visit_arguments, recurse_path, visit_bounds, visit_children, apply_result, recurse_tree,
}

-- The number of nodes, as fuel.
unfoldable mutual
  pub size : SynType → ℕ
  size (slice t) = suc (size t)
  size (array _ t) = suc (size t)
  size (ptr _ t) = suc (size t)
  size (reference _ _ t) = suc (size t)
  size (bare_fn _ inputs out) = suc (size_inputs inputs + size_output out)
  size (tuple ts) = suc (size_types ts)
  size (path _ p) = suc (size_segments p)
  size (trait_object _ bounds) = suc (size_bounds bounds)
  size (impl_trait bounds) = suc (size_bounds bounds)
  size (paren t) = suc (size t)
  size (group t) = suc (size t)
  size infer = 1
  size never = 1
  size (macro_call _) = 1
  size (verbatim _) = 1

  pub size_types : Types → ℕ
  size_types end_types = 1
  size_types (elem t ts) = suc (size t + size_types ts)

  pub size_inputs : FnInputs → ℕ
  size_inputs end_inputs = 1
  size_inputs (input _ t rest) = suc (size t + size_inputs rest)

  pub size_output : ReturnType → ℕ
  size_output default = 1
  size_output (output t) = suc (size t)

  pub size_segments : Segments → ℕ
  size_segments end_segments = 1
  size_segments (segment _ args rest) = suc (size_arguments args + size_segments rest)

  pub size_arguments : PathArguments → ℕ
  size_arguments no_arguments = 1
  size_arguments (angle_bracketed args) = suc (size_generics args)
  size_arguments (parenthesized inputs out) = suc (size_types inputs + size_output out)

  pub size_generics : GenericArguments → ℕ
  size_generics end_arguments = 1
  size_generics (type_argument t rest) = suc (size t + size_generics rest)
  size_generics (other_argument _ rest) = suc (size_generics rest)

  pub size_bounds : Bounds → ℕ
  size_bounds end_bounds = 1
  size_bounds (trait_bound _ p rest) = suc (size_segments p + size_bounds rest)
  size_bounds (lifetime_bound _ rest) = suc (size_bounds rest)

module _ {S : Type 0} (g : S → Option String → Option String × S) where
  -- The closure that gives each reference the lifetime that `g` says.
  unfoldable pub relabelling : Closure S
  relabelling (reference l m t) s = ok (reference (g s l).0 m t, (g s l).1)
  relabelling t s = ok (t, s)

  unfoldable mutual
    pub relabel : SynType → S → SynType × S
    relabel (slice t) s = let r = relabel t s in (slice r.0, r.1)
    relabel (array len t) s = let r = relabel t s in (array len r.0, r.1)
    relabel (ptr kind t) s = let r = relabel t s in (ptr kind r.0, r.1)
    relabel (reference l m t) s = let r = relabel t (g s l).1 in (reference (g s l).0 m r.0, r.1)
    relabel (bare_fn head inputs out) s =
        let r = relabel_output out s in
        let q = relabel_inputs inputs r.1 in (bare_fn head q.0 r.0, q.1)
    relabel (tuple ts) s = let r = relabel_types ts s in (tuple r.0, r.1)
    relabel (path front p) s = let r = relabel_segments p s in (path front r.0, r.1)
    relabel (trait_object front bounds) s =
        let r = relabel_bounds bounds s in (trait_object front r.0, r.1)
    relabel (impl_trait bounds) s = let r = relabel_bounds bounds s in (impl_trait r.0, r.1)
    relabel (paren t) s = let r = relabel t s in (paren r.0, r.1)
    relabel (group t) s = let r = relabel t s in (group r.0, r.1)
    relabel infer s = (infer, s)
    relabel never s = (never, s)
    relabel (macro_call text) s = (macro_call text, s)
    relabel (verbatim text) s = (verbatim text, s)

    pub relabel_types : Types → S → Types × S
    relabel_types end_types s = (end_types, s)
    relabel_types (elem t ts) s =
        let r = relabel t s in let q = relabel_types ts r.1 in (elem r.0 q.0, q.1)

    pub relabel_inputs : FnInputs → S → FnInputs × S
    relabel_inputs end_inputs s = (end_inputs, s)
    relabel_inputs (input name t rest) s =
        let r = relabel t s in let q = relabel_inputs rest r.1 in (input name r.0 q.0, q.1)

    pub relabel_output : ReturnType → S → ReturnType × S
    relabel_output default s = (default, s)
    relabel_output (output t) s = let r = relabel t s in (output r.0, r.1)

    pub relabel_segments : Segments → S → Segments × S
    relabel_segments end_segments s = (end_segments, s)
    relabel_segments (segment name args rest) s =
        let r = relabel_arguments args s in
        let q = relabel_segments rest r.1 in (segment name r.0 q.0, q.1)

    pub relabel_arguments : PathArguments → S → PathArguments × S
    relabel_arguments no_arguments s = (no_arguments, s)
    relabel_arguments (angle_bracketed args) s =
        let r = relabel_generics args s in (angle_bracketed r.0, r.1)
    relabel_arguments (parenthesized inputs out) s =
        let r = relabel_output out s in
        let q = relabel_types inputs r.1 in (parenthesized q.0 r.0, q.1)

    pub relabel_generics : GenericArguments → S → GenericArguments × S
    relabel_generics end_arguments s = (end_arguments, s)
    relabel_generics (type_argument t rest) s =
        let r = relabel t s in let q = relabel_generics rest r.1 in (type_argument r.0 q.0, q.1)
    relabel_generics (other_argument text rest) s =
        let r = relabel_generics rest s in (other_argument text r.0, r.1)

    pub relabel_bounds : Bounds → S → Bounds × S
    relabel_bounds end_bounds s = (end_bounds, s)
    relabel_bounds (trait_bound modifier p rest) s =
        let r = relabel_segments p s in
        let q = relabel_bounds rest r.1 in (trait_bound modifier r.0 q.0, q.1)
    relabel_bounds (lifetime_bound l rest) s =
        let r = relabel_bounds rest s in (lifetime_bound l r.0, r.1)

  -- A walk that returns what a relabelling makes.
  abbrev pub As : {A : Type 0} → Walked S A → A × S → Type 0
  As w r = w ≡ walked r.0 r.1

  module _ (visit : SynType → Walk S SynType) (fuel : ℕ)
      (follows : (t : SynType) (s : S) → size t < fuel → As (visit t s) (relabel t s)) where
    visit_types-relabel :
        (ts : Types) (s : S)
        → size_types ts < fuel
        → As (visit_types visit ts s) (relabel_types ts s)
    unfolding visit_types relabel size
    visit_types-relabel end_types s h = refl
    visit_types-relabel (elem t ts) s h =
        rw (follows t s (omega arith), visit_types-relabel ts (relabel t s).1 (omega arith))

    visit_inputs-relabel :
        (ts : FnInputs) (s : S)
        → size_inputs ts < fuel
        → As (visit_inputs visit ts s) (relabel_inputs ts s)
    unfolding visit_inputs relabel size
    visit_inputs-relabel end_inputs s h = refl
    visit_inputs-relabel (input name t ts) s h =
        rw (follows t s (omega arith), visit_inputs-relabel ts (relabel t s).1 (omega arith))

    visit_output-relabel :
        (out : ReturnType) (s : S)
        → size_output out < fuel
        → As (visit_output visit out s) (relabel_output out s)
    unfolding visit_output relabel size
    visit_output-relabel default s h = refl
    visit_output-relabel (output t) s h = rw (follows t s (omega arith))

    visit_generics-relabel :
        (args : GenericArguments) (s : S)
        → size_generics args < fuel
        → As (visit_generics visit args s) (relabel_generics args s)
    unfolding visit_generics relabel size
    visit_generics-relabel end_arguments s h = refl
    visit_generics-relabel (type_argument t rest) s h =
        rw (follows t s (omega arith), visit_generics-relabel rest (relabel t s).1 (omega arith))
    visit_generics-relabel (other_argument text rest) s h =
        rw (visit_generics-relabel rest s (omega arith))

    visit_arguments-relabel :
        (args : PathArguments) (s : S)
        → size_arguments args < fuel
        → As (visit_arguments visit args s) (relabel_arguments args s)
    unfolding visit_arguments relabel size
    visit_arguments-relabel no_arguments s h = refl
    visit_arguments-relabel (angle_bracketed args) s h =
        rw (visit_generics-relabel args s (omega arith))
    visit_arguments-relabel (parenthesized inputs out) s h = rw (
      visit_output-relabel out s (omega arith),
      visit_types-relabel inputs (relabel_output out s).1 (omega arith),
    )

    recurse_path-relabel :
        (p : Segments) (s : S)
        → size_segments p < fuel
        → As (recurse_path visit p s) (relabel_segments p s)
    unfolding recurse_path relabel size
    recurse_path-relabel end_segments s h = refl
    recurse_path-relabel (segment name args rest) s h = rw (
      visit_arguments-relabel args s (omega arith),
      recurse_path-relabel rest (relabel_arguments args s).1 (omega arith),
    )

    visit_bounds-relabel :
        (bounds : Bounds) (s : S)
        → size_bounds bounds < fuel
        → As (visit_bounds visit bounds s) (relabel_bounds bounds s)
    unfolding visit_bounds relabel size
    visit_bounds-relabel end_bounds s h = refl
    visit_bounds-relabel (trait_bound modifier p rest) s h = rw (
      recurse_path-relabel p s (omega arith),
      visit_bounds-relabel rest (relabel_segments p s).1 (omega arith),
    )
    visit_bounds-relabel (lifetime_bound l rest) s h =
        rw (visit_bounds-relabel rest s (omega arith))

    visited-relabel :
        (t : SynType) (s : S)
        → size t < suc fuel
        → As (then_walk (apply_result (relabelling t s)) (visit_children visit)) (relabel t s)
    unfolding visit_children relabel relabelling size
    visited-relabel (slice t) s h = rw (follows t s (omega arith))
    visited-relabel (array len t) s h = rw (follows t s (omega arith))
    visited-relabel (ptr kind t) s h = rw (follows t s (omega arith))
    visited-relabel (reference l m t) s h = rw (follows t (g s l).1 (omega arith))
    visited-relabel (bare_fn head inputs out) s h = rw (
      visit_output-relabel out s (omega arith),
      visit_inputs-relabel inputs (relabel_output out s).1 (omega arith),
    )
    visited-relabel (tuple ts) s h = rw (visit_types-relabel ts s (omega arith))
    visited-relabel (path front p) s h = rw (recurse_path-relabel p s (omega arith))
    visited-relabel (trait_object front bounds) s h =
        rw (visit_bounds-relabel bounds s (omega arith))
    visited-relabel (impl_trait bounds) s h = rw (visit_bounds-relabel bounds s (omega arith))
    visited-relabel (paren t) s h = rw (follows t s (omega arith))
    visited-relabel (group t) s h = rw (follows t s (omega arith))
    visited-relabel infer s h = refl
    visited-relabel never s h = refl
    visited-relabel (macro_call text) s h = refl
    visited-relabel (verbatim text) s h = refl

  -- With more fuel than a type's size, the traversal with a closure that only gives references new
  -- lifetimes ends, and makes the type and the state that the recursion on the type makes.
  pub recurse_tree-relabel :
      (fuel : ℕ) (t : SynType) (s : S)
      → size t < fuel
      → As (recurse_tree fuel relabelling t s) (relabel t s)
  unfolding recurse_tree
  recurse_tree-relabel zero t s h = absurd (omega arith)
  recurse_tree-relabel (suc fuel) t s h =
      visited-relabel (recurse_tree fuel relabelling) fuel
        (λ t' s' h'. recurse_tree-relabel fuel t' s' h') t s h
