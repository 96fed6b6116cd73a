-- ===== src/ArgTypes.antt =====
-- tracers-codegen/src/argtypes.rs: the C type of an argument, from the syntax of its Rust type.
pub mod Denotes
use tracers.Prelude.{
  String, Bool, true, false, Option, none, some, List, [], ◌∷◌, ◌++◌, if◌then◌else◌,
}
use tracers.Core.CType
use tracers.Core.CType.{CType, get_c_type, get_rust_type_str}
use tracers.Core.ArgType.{
  ArgType, IntType, i8, u8, i16, u16, i32, u32, i64, u64, usize, isize, integer, bool, str, string,
  os_str, os_string, c_str, c_string, reference, option, pointer, native_type,
}
use tracers.Syn.Types.{
  SynType, path, segment, end_segments, no_arguments, angle_bracketed, type_argument, end_arguments,
}
use tracers.Syn.Types
use tracers.Syn.Equality.{type_eq}

pub record ArgTypeInfo : Type 0 where
  pub c_type : CType
  pub c_type_str : String
  pub rust_type_str : String

-- `ArgTypeInfo::new::<T>()`
unfoldable pub new : ArgType → ArgTypeInfo
unfolding native_type get_c_type CType.to_str get_rust_type_str
new t = record {
  c_type = get_c_type (native_type t);
  c_type_str = CType.to_str (get_c_type (native_type t));
  rust_type_str = get_rust_type_str (native_type t);
}

-- `parse_quote!` of a name, `&T`, `Option<T>` and `*const T`
abbrev pub named : String → SynType
named name = path "" (segment name no_arguments end_segments)

abbrev pub ref_to : SynType → SynType
ref_to s = Types.reference none "" s

abbrev pub option_of : SynType → SynType
option_of s =
    path "" (segment "Option" (angle_bracketed (type_argument s end_arguments)) end_segments)

abbrev pub const_ptr : SynType → SynType
const_ptr s = Types.ptr "const" s

abbrev pub Candidates : Type 0
Candidates = List (SynType × ArgType)

-- `maybe_type!(@primitive …)`
primitive : SynType → ArgType → Candidates
primitive s t =
    (s, t)
    ∷ (ref_to s, reference t)
    ∷ (ref_to (option_of s), option t)
    ∷ (ref_to (option_of (ref_to s)), option (reference t))
    ∷ (const_ptr s, pointer)
    ∷ []

-- `maybe_type!(@string …)`
string_type : SynType → ArgType → Candidates
string_type s t = (s, t) ∷ (ref_to (option_of s), option t) ∷ []

-- `maybe_types!(@tag …)`
each : (SynType → ArgType → Candidates) → Candidates → Candidates
each tag [] = []
each tag ((s, t) ∷ rest) = tag s t ++ each tag rest

abbrev pub integers : Candidates
integers =
    (named "i8", integer i8)
    ∷ (named "u8", integer u8)
    ∷ (named "i16", integer i16)
    ∷ (named "u16", integer u16)
    ∷ (named "i32", integer i32)
    ∷ (named "u32", integer u32)
    ∷ (named "i64", integer i64)
    ∷ (named "u64", integer u64)
    ∷ (named "usize", integer usize)
    ∷ (named "isize", integer isize)
    ∷ []

abbrev pub strings : Candidates
strings =
    (ref_to (named "str"), str)
    ∷ (ref_to (named "String"), string)
    ∷ (ref_to (named "OsStr"), os_str)
    ∷ (ref_to (named "OsString"), os_string)
    ∷ (ref_to (named "CStr"), c_str)
    ∷ (ref_to (named "CString"), c_string)
    ∷ []

-- The types that are tried, in this order.
candidates : Candidates
unfolding primitive string_type each
candidates = each primitive integers ++ (each string_type strings ++ primitive (named "bool") bool)

first_equal : SynType → Candidates → Option ArgTypeInfo
unfolding new type_eq
first_equal ty [] = none
first_equal ty ((s, t) ∷ rest) = if type_eq ty s then some (new t) else first_equal ty rest

unfoldable pub from_syn_type : SynType → Option ArgTypeInfo
unfolding candidates first_equal
from_syn_type ty = first_equal ty candidates
