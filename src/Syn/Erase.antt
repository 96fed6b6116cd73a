-- ===== src/Syn/Erase.antt =====
-- A type without the lifetimes of its references, and that a relabelling changes nothing else.
use tracers.Prelude.{String, Option, none, ◌≡◌, refl}
use tracers.Syn.Types.{
  SynType, slice, array, ptr, reference, bare_fn, tuple, path, trait_object, impl_trait, paren,
  group, infer, never, macro_call, verbatim, Types, end_types, elem, FnInputs, end_inputs, input,
  ReturnType, default, output, Segments, end_segments, segment, PathArguments, no_arguments,
  angle_bracketed, parenthesized, GenericArguments, end_arguments, type_argument, other_argument,
  Bounds, end_bounds, trait_bound, lifetime_bound,
}
use tracers.Syn.Relabel.{
  relabel, relabel_types, relabel_inputs, relabel_output, relabel_segments, relabel_arguments,
  relabel_generics, relabel_bounds,
}

unfoldable mutual
  pub erase : SynType → SynType
  erase (slice t) = slice (erase t)
  erase (array w t) = array w (erase t)
  erase (ptr w t) = ptr w (erase t)
  erase (reference l w t) = reference none w (erase t)
  erase (bare_fn w is out) = bare_fn w (erase_inputs is) (erase_output out)
  erase (tuple ts) = tuple (erase_types ts)
  erase (path w p) = path w (erase_segments p)
  erase (trait_object w bs) = trait_object w (erase_bounds bs)
  erase (impl_trait bs) = impl_trait (erase_bounds bs)
  erase (paren t) = paren (erase t)
  erase (group t) = group (erase t)
  erase infer = infer
  erase never = never
  erase (macro_call w) = macro_call w
  erase (verbatim w) = verbatim w

  pub erase_types : Types → Types
  erase_types end_types = end_types
  erase_types (elem t ts) = elem (erase t) (erase_types ts)

  pub erase_inputs : FnInputs → FnInputs
  erase_inputs end_inputs = end_inputs
  erase_inputs (input w t is) = input w (erase t) (erase_inputs is)

  pub erase_output : ReturnType → ReturnType
  erase_output default = default
  erase_output (output t) = output (erase t)

  pub erase_segments : Segments → Segments
  erase_segments end_segments = end_segments
  erase_segments (segment w args p) = segment w (erase_arguments args) (erase_segments p)

  pub erase_arguments : PathArguments → PathArguments
  erase_arguments no_arguments = no_arguments
  erase_arguments (angle_bracketed gs) = angle_bracketed (erase_generics gs)
  erase_arguments (parenthesized ts out) = parenthesized (erase_types ts) (erase_output out)

  pub erase_generics : GenericArguments → GenericArguments
  erase_generics end_arguments = end_arguments
  erase_generics (type_argument t gs) = type_argument (erase t) (erase_generics gs)
  erase_generics (other_argument w gs) = other_argument w (erase_generics gs)

  pub erase_bounds : Bounds → Bounds
  erase_bounds end_bounds = end_bounds
  erase_bounds (trait_bound w p bs) = trait_bound w (erase_segments p) (erase_bounds bs)
  erase_bounds (lifetime_bound w bs) = lifetime_bound w (erase_bounds bs)

module _ {S : Type 0} (g : S → Option String → Option String × S) where
  mutual
    unfolding erase relabel

    pub erase-relabel : (x : SynType) (s : S) → erase (relabel g x s).0 ≡ erase x
    erase-relabel (slice t) s = rw (erase-relabel t s)
    erase-relabel (array w t) s = rw (erase-relabel t s)
    erase-relabel (ptr w t) s = rw (erase-relabel t s)
    erase-relabel (reference l w t) s = rw (erase-relabel t (g s l).1)
    erase-relabel (bare_fn w is out) s =
        rw (erase_output-relabel out s, erase_inputs-relabel is (relabel_output g out s).1)
    erase-relabel (tuple ts) s = rw (erase_types-relabel ts s)
    erase-relabel (path w p) s = rw (erase_segments-relabel p s)
    erase-relabel (trait_object w bs) s = rw (erase_bounds-relabel bs s)
    erase-relabel (impl_trait bs) s = rw (erase_bounds-relabel bs s)
    erase-relabel (paren t) s = rw (erase-relabel t s)
    erase-relabel (group t) s = rw (erase-relabel t s)
    erase-relabel infer s = refl
    erase-relabel never s = refl
    erase-relabel (macro_call w) s = refl
    erase-relabel (verbatim w) s = refl

    pub erase_types-relabel :
        (x : Types) (s : S) → erase_types (relabel_types g x s).0 ≡ erase_types x
    erase_types-relabel end_types s = refl
    erase_types-relabel (elem t ts) s =
        rw (erase-relabel t s, erase_types-relabel ts (relabel g t s).1)

    pub erase_inputs-relabel :
        (x : FnInputs) (s : S) → erase_inputs (relabel_inputs g x s).0 ≡ erase_inputs x
    erase_inputs-relabel end_inputs s = refl
    erase_inputs-relabel (input w t is) s =
        rw (erase-relabel t s, erase_inputs-relabel is (relabel g t s).1)

    pub erase_output-relabel :
        (x : ReturnType) (s : S) → erase_output (relabel_output g x s).0 ≡ erase_output x
    erase_output-relabel default s = refl
    erase_output-relabel (output t) s = rw (erase-relabel t s)

    pub erase_segments-relabel :
        (x : Segments) (s : S) → erase_segments (relabel_segments g x s).0 ≡ erase_segments x
    erase_segments-relabel end_segments s = refl
    erase_segments-relabel (segment w args p) s =
        rw (erase_arguments-relabel args s, erase_segments-relabel p (relabel_arguments g args s).1)

    pub erase_arguments-relabel :
        (x : PathArguments) (s : S)
        → erase_arguments (relabel_arguments g x s).0 ≡ erase_arguments x
    erase_arguments-relabel no_arguments s = refl
    erase_arguments-relabel (angle_bracketed gs) s = rw (erase_generics-relabel gs s)
    erase_arguments-relabel (parenthesized ts out) s =
        rw (erase_output-relabel out s, erase_types-relabel ts (relabel_output g out s).1)

    pub erase_generics-relabel :
        (x : GenericArguments) (s : S)
        → erase_generics (relabel_generics g x s).0 ≡ erase_generics x
    erase_generics-relabel end_arguments s = refl
    erase_generics-relabel (type_argument t gs) s =
        rw (erase-relabel t s, erase_generics-relabel gs (relabel g t s).1)
    erase_generics-relabel (other_argument w gs) s = rw (erase_generics-relabel gs s)

    pub erase_bounds-relabel :
        (x : Bounds) (s : S) → erase_bounds (relabel_bounds g x s).0 ≡ erase_bounds x
    erase_bounds-relabel end_bounds s = refl
    erase_bounds-relabel (trait_bound w p bs) s =
        rw (erase_segments-relabel p s, erase_bounds-relabel bs (relabel_segments g p s).1)
    erase_bounds-relabel (lifetime_bound w bs) s = rw (erase_bounds-relabel bs s)
