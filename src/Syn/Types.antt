-- ===== src/Syn/Types.antt =====
-- The parse tree of a type, `syn::Type`: the variants and the fields that the code of
-- tracers-codegen matches. Whatever else a node holds (the length of an array, `mut`, the tokens of
-- a macro, …) it never looks into, and is one text here.
use tracers.Prelude.{String, Option}

mutual
  pub data SynType : Type 0 where
    slice : SynType → SynType
    array : String → SynType → SynType
    ptr : String → SynType → SynType
    -- the lifetime, and `mut` or nothing
    reference : Option String → String → SynType → SynType
    bare_fn : String → FnInputs → ReturnType → SynType
    tuple : Types → SynType
    -- what stands before the segments, and they
    path : String → Segments → SynType
    trait_object : String → Bounds → SynType
    impl_trait : Bounds → SynType
    paren : SynType → SynType
    group : SynType → SynType
    infer never : SynType
    macro_call verbatim : String → SynType

  -- `elems` of a tuple, and the inputs of `Fn(…)`
  pub data Types : Type 0 where
    end_types : Types
    elem : SynType → Types → Types

  -- `inputs` of a function type: what stands before the type, and it
  pub data FnInputs : Type 0 where
    end_inputs : FnInputs
    input : String → SynType → FnInputs → FnInputs

  pub data ReturnType : Type 0 where
    default : ReturnType
    output : SynType → ReturnType

  -- The segments of a path, each with its arguments
  pub data Segments : Type 0 where
    end_segments : Segments
    segment : String → PathArguments → Segments → Segments

  pub data PathArguments : Type 0 where
    no_arguments : PathArguments
    angle_bracketed : GenericArguments → PathArguments
    parenthesized : Types → ReturnType → PathArguments

  pub data GenericArguments : Type 0 where
    end_arguments : GenericArguments
    type_argument : SynType → GenericArguments → GenericArguments
    -- a lifetime, a binding, a constraint or a constant
    other_argument : String → GenericArguments → GenericArguments

  -- `bounds`: paths of traits, and lifetimes
  pub data Bounds : Type 0 where
    end_bounds : Bounds
    trait_bound : String → Segments → Bounds → Bounds
    lifetime_bound : String → Bounds → Bounds
