-- ===== src/Syn/Visited.antt =====
-- The lifetimes of the references within a type, in the order in which the traversal visits them, and
-- what a relabelling makes of them.
use tracers.Prelude.{String, Option, List, [], ◌∷◌, ◌++◌, ◌≡◌, refl, ap}
use tracers.Syn.Types.{
  SynType, slice, array, ptr, reference, bare_fn, tuple, path, trait_object, impl_trait, paren,
  group, infer, never, macro_call, verbatim, Types, end_types, elem, FnInputs, end_inputs, input,
  ReturnType, default, output, Segments, end_segments, segment, PathArguments, no_arguments,
  angle_bracketed, parenthesized, GenericArguments, end_arguments, type_argument, other_argument,
  Bounds, end_bounds, trait_bound, lifetime_bound,
}
use tracers.Syn.Relabel.{
  relabel, relabel_types, relabel_inputs, relabel_output, relabel_segments, relabel_arguments,
  relabel_generics, relabel_bounds,
}

unfoldable mutual
  pub visited : SynType → List (Option String)
  visited (slice t) = visited t
  visited (array w t) = visited t
  visited (ptr w t) = visited t
  visited (reference l w t) = l ∷ visited t
  visited (bare_fn w is out) = visited_output out ++ visited_inputs is
  visited (tuple ts) = visited_types ts
  visited (path w p) = visited_segments p
  visited (trait_object w bs) = visited_bounds bs
  visited (impl_trait bs) = visited_bounds bs
  visited (paren t) = visited t
  visited (group t) = visited t
  visited infer = []
  visited never = []
  visited (macro_call w) = []
  visited (verbatim w) = []

  pub visited_types : Types → List (Option String)
  visited_types end_types = []
  visited_types (elem t ts) = visited t ++ visited_types ts

  pub visited_inputs : FnInputs → List (Option String)
  visited_inputs end_inputs = []
  visited_inputs (input w t is) = visited t ++ visited_inputs is

  pub visited_output : ReturnType → List (Option String)
  visited_output default = []
  visited_output (output t) = visited t

  pub visited_segments : Segments → List (Option String)
  visited_segments end_segments = []
  visited_segments (segment w args p) = visited_arguments args ++ visited_segments p

  pub visited_arguments : PathArguments → List (Option String)
  visited_arguments no_arguments = []
  visited_arguments (angle_bracketed gs) = visited_generics gs
  visited_arguments (parenthesized ts out) = visited_output out ++ visited_types ts

  pub visited_generics : GenericArguments → List (Option String)
  visited_generics end_arguments = []
  visited_generics (type_argument t gs) = visited t ++ visited_generics gs
  visited_generics (other_argument w gs) = visited_generics gs

  pub visited_bounds : Bounds → List (Option String)
  visited_bounds end_bounds = []
  visited_bounds (trait_bound w p bs) = visited_segments p ++ visited_bounds bs
  visited_bounds (lifetime_bound w bs) = visited_bounds bs

module _ {S : Type 0} (g : S → Option String → Option String × S) where
  -- The new lifetimes, and the last state.
  unfoldable pub thread : List (Option String) → S → List (Option String) × S
  thread [] s = ([], s)
  thread (l ∷ ls) s = let r = thread ls (g s l).1 in ((g s l).0 ∷ r.0, r.1)

  pub thread-append :
      (ks ls : List (Option String)) (s : S)
      → thread (ks ++ ls) s ≡ (let r = thread ks s in let q = thread ls r.1 in (r.0 ++ q.0, q.1))
  unfolding thread
  thread-append [] ls s = refl
  thread-append (k ∷ ks) ls s = rw (thread-append ks ls (g s k).1)

  -- Two parts, one after the other.
  two :
      (ks ls : List (Option String)) (s s₁ s₂ : S) (ks' ls' : List (Option String))
      → (ks', s₁) ≡ thread ks s
      → (ls', s₂) ≡ thread ls s₁
      → (ks' ++ ls', s₂) ≡ thread (ks ++ ls) s
  two ks ls s s₁ s₂ ks' ls' h k = rw (thread-append ks ls s, ← h, ← k)

  mutual
    unfolding visited relabel thread

    pub visited-relabel :
        (x : SynType) (s : S) → (let r = relabel g x s in (visited r.0, r.1)) ≡ thread (visited x) s
    visited-relabel (slice t) s = visited-relabel t s
    visited-relabel (array w t) s = visited-relabel t s
    visited-relabel (ptr w t) s = visited-relabel t s
    visited-relabel (reference l w t) s =
        ap (λ (r : List (Option String) × S). ((g s l).0 ∷ r.0, r.1)) (visited-relabel t (g s l).1)
    visited-relabel (bare_fn w is out) s =
        two (visited_output out) (visited_inputs is) s _ _ _ _ (visited_output-relabel out s)
          (visited_inputs-relabel is (relabel_output g out s).1)
    visited-relabel (tuple ts) s = visited_types-relabel ts s
    visited-relabel (path w p) s = visited_segments-relabel p s
    visited-relabel (trait_object w bs) s = visited_bounds-relabel bs s
    visited-relabel (impl_trait bs) s = visited_bounds-relabel bs s
    visited-relabel (paren t) s = visited-relabel t s
    visited-relabel (group t) s = visited-relabel t s
    visited-relabel infer s = refl
    visited-relabel never s = refl
    visited-relabel (macro_call w) s = refl
    visited-relabel (verbatim w) s = refl

    pub visited_types-relabel :
        (x : Types) (s : S)
        → (let r = relabel_types g x s in (visited_types r.0, r.1)) ≡ thread (visited_types x) s
    visited_types-relabel end_types s = refl
    visited_types-relabel (elem t ts) s =
        two (visited t) (visited_types ts) s _ _ _ _ (visited-relabel t s)
          (visited_types-relabel ts (relabel g t s).1)

    pub visited_inputs-relabel :
        (x : FnInputs) (s : S)
        → (let r = relabel_inputs g x s in (visited_inputs r.0, r.1)) ≡ thread (visited_inputs x) s
    visited_inputs-relabel end_inputs s = refl
    visited_inputs-relabel (input w t is) s =
        two (visited t) (visited_inputs is) s _ _ _ _ (visited-relabel t s)
          (visited_inputs-relabel is (relabel g t s).1)

    pub visited_output-relabel :
        (x : ReturnType) (s : S)
        → (let r = relabel_output g x s in (visited_output r.0, r.1)) ≡ thread (visited_output x) s
    visited_output-relabel default s = refl
    visited_output-relabel (output t) s = visited-relabel t s

    pub visited_segments-relabel :
        (x : Segments) (s : S)
        → (let r = relabel_segments g x s in (visited_segments r.0, r.1))
          ≡ thread (visited_segments x) s
    visited_segments-relabel end_segments s = refl
    visited_segments-relabel (segment w args p) s =
        two (visited_arguments args) (visited_segments p) s _ _ _ _
          (visited_arguments-relabel args s)
          (visited_segments-relabel p (relabel_arguments g args s).1)

    pub visited_arguments-relabel :
        (x : PathArguments) (s : S)
        → (let r = relabel_arguments g x s in (visited_arguments r.0, r.1))
          ≡ thread (visited_arguments x) s
    visited_arguments-relabel no_arguments s = refl
    visited_arguments-relabel (angle_bracketed gs) s = visited_generics-relabel gs s
    visited_arguments-relabel (parenthesized ts out) s =
        two (visited_output out) (visited_types ts) s _ _ _ _ (visited_output-relabel out s)
          (visited_types-relabel ts (relabel_output g out s).1)

    pub visited_generics-relabel :
        (x : GenericArguments) (s : S)
        → (let r = relabel_generics g x s in (visited_generics r.0, r.1))
          ≡ thread (visited_generics x) s
    visited_generics-relabel end_arguments s = refl
    visited_generics-relabel (type_argument t gs) s =
        two (visited t) (visited_generics gs) s _ _ _ _ (visited-relabel t s)
          (visited_generics-relabel gs (relabel g t s).1)
    visited_generics-relabel (other_argument w gs) s = visited_generics-relabel gs s

    pub visited_bounds-relabel :
        (x : Bounds) (s : S)
        → (let r = relabel_bounds g x s in (visited_bounds r.0, r.1)) ≡ thread (visited_bounds x) s
    visited_bounds-relabel end_bounds s = refl
    visited_bounds-relabel (trait_bound w p bs) s =
        two (visited_segments p) (visited_bounds bs) s _ _ _ _ (visited_segments-relabel p s)
          (visited_bounds-relabel bs (relabel_segments g p s).1)
    visited_bounds-relabel (lifetime_bound w bs) s = visited_bounds-relabel bs s
