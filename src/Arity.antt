-- ===== src/Arity.antt =====
-- What the build scripts tracers-core/build.rs, tracers-dyn-stap/build.rs and tracers-dyn-noop/build.rs
-- share: the names of type parameters, and Rust text made for every number of arguments up to 12.
pub mod Tuples
pub mod Stap
pub mod NoOp
pub mod Fires
pub mod Probes
use tracers.Prelude.{ℕ, zero, suc, ◌+◌, String, ◌<>◌, List, [], ◌∷◌, map}
use tracers.Prelude.Radix.{decimal}
use tracers.Error.{join}

abbrev pub max_arity : ℕ
max_arity = 12

-- `T0` to `Tn`, from an index on
unfoldable pub type_params_from : ℕ → ℕ → List String
unfolding decimal
type_params_from index zero = []
type_params_from index (suc args) = ("T" <> decimal index) ∷ type_params_from (suc index) args

unfoldable pub get_type_param_names : ℕ → List String
unfolding type_params_from
get_type_param_names args = type_params_from 0 args

unfoldable pub xform_types : List String → (String → String) → List String
xform_types type_params f = map f type_params

unfoldable pub xform_types_from : ℕ → List String → (ℕ → String → String) → List String
xform_types_from index [] f = []
xform_types_from index (x ∷ xs) f = f index x ∷ xform_types_from (suc index) xs f

unfoldable pub xform_types_i : List String → (ℕ → String → String) → List String
unfolding xform_types_from
xform_types_i type_params f = xform_types_from 0 type_params f

unfoldable pub make_tuple_type : List String → String
make_tuple_type [] = "()"
make_tuple_type (t ∷ ts) = "(" <> join "," (t ∷ ts) <> ",)"

-- `T: Trait<T>` for each type parameter
unfoldable pub where_clause : String → List String → String
unfolding xform_types
where_clause bound type_params =
    join "," (xform_types type_params (λ t. t <> ": " <> bound <> "<" <> t <> ">"))

-- `arg0: T0` and so on, with a prefix
unfoldable pub typed_args : String → List String → List String
unfolding xform_types_i decimal
typed_args prefix type_params = xform_types_i type_params (λ i x. prefix <> decimal i <> ": " <> x)

-- The texts for the arities from one on, as many as are asked for
unfoldable pub for_arities : (ℕ → String) → ℕ → ℕ → String
for_arities text arity zero = ""
for_arities text arity (suc more) = text arity <> for_arities text (suc arity) more
