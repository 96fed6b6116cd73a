-- ===== src/Dynamic.antt =====
-- tracers-core/src/dynamic.rs: what identifies a probe at run time, and how a provider is asked for
-- one. A tuple type of probe arguments is the list of its elements' types.
pub mod Stap
pub mod NoOp
use tracers.Prelude.{
  ℕ, String, Bool, true, false, List, [], ◌∷◌, map, some, Result, ok, err, ◌&&◌, ◌==◌, ◌≡◌, ◌↔◌,
  refl, arith, get_elem?, map_ok, str_eq, str_eq_iff, Bool-cases, inl, inr, if◌then◌else◌, any,
}
use tracers.Core.CType.{
  CType, get_c_type, no_arg, void_ptr, char_ptr, uchar_ptr, char, uchar, short, ushort, int, uint,
  long, ulong, long_long, ulong_long, size_t, ssize_t,
}
use tracers.Core.ArgType.{ArgType, native_type}

pub record ProbeDefinition : Type 0 where
  pub name : String
  pub arg_types : List CType

unfoldable pub get_ctype : ArgType → CType
unfolding get_c_type native_type
get_ctype t = get_c_type (native_type t)

-- `ProbeDefinition::new::<ArgsT>(name)`
unfoldable pub new : String → List ArgType → ProbeDefinition
unfolding get_ctype
new name args = record { name = name; arg_types = map get_ctype args }

-- `Provider::get_probe`, over the provider's `get_probe_unsafe`.
unfoldable pub get_probe :
    {E P : Type 0} → (ProbeDefinition → Result E P) → String → List ArgType → Result E P
unfolding new
get_probe get_probe_unsafe name args = get_probe_unsafe (new name args)

-- `derive(PartialEq)`: the variants by their places, and lists element by element.
abbrev ctypes : List CType
ctypes =
    no_arg ∷ void_ptr ∷ char_ptr ∷ uchar_ptr ∷ char ∷ uchar ∷ short ∷ ushort ∷ int ∷ uint ∷ long
    ∷ ulong ∷ long_long ∷ ulong_long ∷ size_t ∷ ssize_t ∷ []

place : CType → ℕ
place no_arg = 0
place void_ptr = 1
place char_ptr = 2
place uchar_ptr = 3
place char = 4
place uchar = 5
place short = 6
place ushort = 7
place int = 8
place uint = 9
place long = 10
place ulong = 11
place long_long = 12
place ulong_long = 13
place size_t = 14
place ssize_t = 15

get_elem?-place : (c : CType) → get_elem? ctypes (place c) ≡ some c
unfolding place
get_elem?-place no_arg = refl
get_elem?-place _ = refl

unfoldable pub ctypes_eq : List CType → List CType → Bool
unfolding place
ctypes_eq [] [] = true
ctypes_eq (c ∷ cs) (d ∷ ds) = place c == place d && ctypes_eq cs ds
ctypes_eq _ _ = false

unfoldable pub definition_eq : ProbeDefinition → ProbeDefinition → Bool
unfolding ctypes_eq
definition_eq a b = str_eq a.name b.name && ctypes_eq a.arg_types b.arg_types

ctypes_eq_sound : (cs ds : List CType) → ctypes_eq cs ds ≡ true → cs ≡ ds
unfolding ctypes_eq
ctypes_eq_sound [] [] h = refl
ctypes_eq_sound (c ∷ cs) (d ∷ ds) h =
    let first : place c ≡ place d = ground arith in
    let rest : cs ≡ ds = ground (arith, ctypes_eq_sound cs ds) in
    cc (get_elem?-place c, get_elem?-place d)
ctypes_eq_sound [] (d ∷ ds) h = absurd (cc)
ctypes_eq_sound (c ∷ cs) [] h = absurd (cc)

ctypes_eq_refl : (cs : List CType) → ctypes_eq cs cs ≡ true
unfolding ctypes_eq
ctypes_eq_refl [] = refl
ctypes_eq_refl (c ∷ cs) = ground (arith, ctypes_eq_refl cs)

pub definition_eq_iff : (a b : ProbeDefinition) → (definition_eq a b ≡ true) ↔ (a ≡ b)
unfolding definition_eq
definition_eq_iff a b = (
  λ h.
      let names : a.name ≡ b.name = (str_eq_iff a.name b.name).0 (ground arith) in
      let types : a.arg_types ≡ b.arg_types =
        ctypes_eq_sound a.arg_types b.arg_types (ground arith) in
      cc,
  λ h. rw h (rw ((str_eq_iff b.name b.name).1 refl) (ctypes_eq_refl b.arg_types)),
)

-- Some definition of the list is `d`.
abbrev pub has : ProbeDefinition → List ProbeDefinition → Bool
has d ds = any (λ e. definition_eq e d) ds
