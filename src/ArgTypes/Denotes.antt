-- ===== src/ArgTypes/Denotes.antt =====
-- What `from_syn_type` says of a type's syntax is what `tracers-core` does with the type that the
-- syntax denotes.
use mathlib.Core.Path.{subst}
use tracers.Prelude.{
  String, some, [], ◌∷◌, ◌++◌, ◌≡◌, All, All-append, Bool-cases, inl, inr, arith, sym,
}
use tracers.Core.ArgType.{
  ArgType, IntType, i8, u8, i16, u16, i32, u32, i64, u64, usize, isize, integer, bool, str, string,
  os_str, os_string, c_str, c_string, reference, option, pointer,
}
use tracers.Syn.Types.{SynType}
use tracers.Syn.Equality.{type_eq, type_eq_sound}
use tracers.ArgTypes.{
  ArgTypeInfo, new, named, ref_to, option_of, const_ptr, Candidates, primitive, string_type, each,
  integers, strings, candidates, first_equal, from_syn_type,
}

unfoldable pub int_name : IntType → String
int_name i8 = "i8"
int_name u8 = "u8"
int_name i16 = "i16"
int_name u16 = "u16"
int_name i32 = "i32"
int_name u32 = "u32"
int_name i64 = "i64"
int_name u64 = "u64"
int_name usize = "usize"
int_name isize = "isize"

-- The Rust type that a syntax denotes where its names have their usual meaning.
pub data Denotes : SynType → ArgType → Type 0 where
  an_integer : (i : IntType) → Denotes (named (int_name i)) (integer i)
  a_bool : Denotes (named "bool") bool
  a_str : Denotes (ref_to (named "str")) str
  a_string : Denotes (ref_to (named "String")) string
  an_os_str : Denotes (ref_to (named "OsStr")) os_str
  an_os_string : Denotes (ref_to (named "OsString")) os_string
  a_c_str : Denotes (ref_to (named "CStr")) c_str
  a_c_string : Denotes (ref_to (named "CString")) c_string
  a_reference : {s : SynType} {t : ArgType} → Denotes s t → Denotes (ref_to s) (reference t)
  an_option : {s : SynType} {t : ArgType} → Denotes s t → Denotes (ref_to (option_of s)) (option t)
  a_pointer : {s : SynType} {t : ArgType} → Denotes s t → Denotes (const_ptr s) pointer

abbrev Right : SynType × ArgType → Type 0
Right c = Denotes c.0 c.1

primitive-Right : (s : SynType) (t : ArgType) → Denotes s t → All Right (primitive s t)
unfolding primitive
primitive-Right s t h =
    (h, (a_reference h, (an_option h, (an_option (a_reference h), (a_pointer h, tt)))))

string_type-Right : (s : SynType) (t : ArgType) → Denotes s t → All Right (string_type s t)
unfolding string_type
string_type-Right s t h = (h, (an_option h, tt))

each-Right :
    (tag : SynType → ArgType → Candidates) (cs : Candidates)
    → ((s : SynType) (t : ArgType) → Denotes s t → All Right (tag s t))
    → All Right cs
    → All Right (each tag cs)
unfolding each
each-Right tag [] f h = tt
each-Right tag ((s, t) ∷ rest) f h =
    All-append Right (tag s t) (f s t h.0) (each tag rest) (each-Right tag rest f h.1)

integers-Right : All Right integers
unfolding int_name
integers-Right = (
  an_integer i8,
  (
    an_integer u8,
    (
      an_integer i16,
      (
        an_integer u16,
        (
          an_integer i32,
          (
            an_integer u32,
            (an_integer i64, (an_integer u64, (an_integer usize, (an_integer isize, tt)))),
          ),
        ),
      ),
    ),
  ),
)

strings-Right : All Right strings
strings-Right = (a_str, (a_string, (an_os_str, (an_os_string, (a_c_str, (a_c_string, tt))))))

candidates-Right : All Right candidates
unfolding candidates
candidates-Right =
    All-append Right (each primitive integers)
      (each-Right primitive integers primitive-Right integers-Right)
      (each string_type strings ++ primitive (named "bool") bool)
      (All-append Right (each string_type strings)
        (each-Right string_type strings string_type-Right strings-Right)
        (primitive (named "bool") bool) (primitive-Right (named "bool") bool a_bool))

first_equal-Right :
    (ty : SynType) (cs : Candidates) {info : ArgTypeInfo}
    → All Right cs
    → first_equal ty cs ≡ some info
    → (t : ArgType) × Denotes ty t × (info ≡ new t)
unfolding first_equal
first_equal-Right ty [] h e = absurd (cc)
first_equal-Right ty ((s, t) ∷ rest) h e = elim (Bool-cases (type_eq ty s)) [
  | inl same ↦ (
    t,
    subst (λ (u : SynType). Denotes u t) (sym (type_eq_sound ty s same)) h.0,
    ground (arith, rw same at e),
  )
  | inr other ↦ first_equal-Right ty rest h.1 (rw other at e)
]

-- A type that is accepted denotes one that `tracers-core` supports, and the information is of that.
pub from_syn_type-Denotes :
    (ty : SynType) {info : ArgTypeInfo}
    → from_syn_type ty ≡ some info
    → (t : ArgType) × Denotes ty t × (info ≡ new t)
unfolding from_syn_type
from_syn_type-Denotes ty e = first_equal-Right ty candidates candidates-Right e

-- The base types that may be passed by value, by reference, as an option of either, or by pointer.
pub data Primitive : SynType → ArgType → Type 0 where
  integer_primitive : (i : IntType) → Primitive (named (int_name i)) (integer i)
  bool_primitive : Primitive (named "bool") bool

abbrev pub AllForms : SynType → ArgType → Type 0
AllForms s t =
    (from_syn_type s ≡ some (new t))
    × (from_syn_type (ref_to s) ≡ some (new (reference t)))
    × (from_syn_type (ref_to (option_of s)) ≡ some (new (option t)))
    × (from_syn_type (ref_to (option_of (ref_to s))) ≡ some (new (option (reference t))))
    × (from_syn_type (const_ptr s) ≡ some (new pointer))
