-- ===== src/Core/Meaning.antt =====
-- What the probing library sees of an argument: a value of the declared C type that means what the
-- Rust value means (tracers-core/src/argtypes).
use tracers.Prelude.{
  ℕ, ◌^◌, ◌-◌, ◌<◌, Bool, true, false, Option, none, some, [], ◌∷◌, ◌++◌, ◌==◌, if◌then◌else◌, ◌≡◌,
  refl, ap, arith, Bool-cases, inl, inr,
}
use tracers.Core.CType.{
  NativeType, libc_size_t, libc_ssize_t, c_ulonglong, c_longlong, c_uint, c_int, c_ushort, c_short,
  c_uchar, c_char, void_pointer, char_pointer, uchar_pointer,
}
use tracers.Core.ArgType.{
  IntType, ArgType, i8, u8, i16, u16, i32, u32, i64, u64, usize, isize, integer, bool, str, string,
  os_str, os_string, c_str, c_string, reference, option, option_string, pointer, ℤ, pos, negsuc,
  Bytes, has_nul, Value, int_native, native_type,
}
use tracers.Core.Conversion.{
  CValue, number, address, memory, new_c_string, wrap, default_value, as_c_type, c_memory,
  c_string_or_null,
}

-- A two's complement integer of `width` bits, or a natural number below 2 ^ width.
abbrev pub InRange : Bool → ℕ → ℤ → Type 0
InRange true width (pos n) = n < 2 ^ (width - 1)
InRange true width (negsuc n) = n < 2 ^ (width - 1)
InRange false width (pos n) = n < 2 ^ width
InRange false width (negsuc n) = ⊥

-- Rust's integers on a 64-bit target: signed or not, and the bits.
abbrev pub int_shape : IntType → Bool × ℕ
int_shape i8 = (true, 8)
int_shape u8 = (false, 8)
int_shape i16 = (true, 16)
int_shape u16 = (false, 16)
int_shape i32 = (true, 32)
int_shape u32 = (false, 32)
int_shape i64 = (true, 64)
int_shape u64 = (false, 64)
int_shape isize = (true, 64)
int_shape usize = (false, 64)

-- The values that Rust's types have.
abbrev pub IsValue : (t : ArgType) → Value t → Type 0
IsValue (integer i) n = InRange (int_shape i).0 (int_shape i).1 n
IsValue (reference t) v = IsValue t v
IsValue (option t) none = Unit
IsValue (option t) (some v) = IsValue t v
IsValue c_str s = has_nul s ≡ false
IsValue c_string s = has_nul s ≡ false
IsValue _ v = Unit

-- The C types on x86-64 Linux, where `char` is signed.
abbrev pub Fits : NativeType → CValue → Type 0
Fits c_char (number n) = InRange true 8 n
Fits c_uchar (number n) = InRange false 8 n
Fits c_short (number n) = InRange true 16 n
Fits c_ushort (number n) = InRange false 16 n
Fits c_int (number n) = InRange true 32 n
Fits c_uint (number n) = InRange false 32 n
Fits c_longlong (number n) = InRange true 64 n
Fits c_ulonglong (number n) = InRange false 64 n
Fits libc_ssize_t (number n) = InRange true 64 n
Fits libc_size_t (number n) = InRange false 64 n
Fits void_pointer (address p) = Unit
-- Null, or memory in which a NUL ends the string.
Fits char_pointer (address p) = p ≡ 0
Fits char_pointer (memory bytes) = has_nul bytes ≡ true
Fits uchar_pointer (address p) = p ≡ 0
Fits _ _ = ⊥

Fits-default : (t : NativeType) → Fits t (default_value t)
unfolding default_value
Fits-default libc_size_t = omega arith
Fits-default libc_ssize_t = omega arith
Fits-default c_ulonglong = omega arith
Fits-default c_longlong = omega arith
Fits-default c_uint = omega arith
Fits-default c_int = omega arith
Fits-default c_ushort = omega arith
Fits-default c_short = omega arith
Fits-default c_uchar = omega arith
Fits-default c_char = omega arith
Fits-default void_pointer = tt
Fits-default char_pointer = refl
Fits-default uchar_pointer = refl

-- A string, or its absence, as memory.
has_nul-append : (bytes : Bytes) → has_nul (bytes ++ 0 ∷ []) ≡ true
has_nul-append [] = refl
has_nul-append (b ∷ bytes) = ground (arith, has_nul-append bytes)

Fits-string : (s : Option Bytes) → Fits char_pointer (c_string_or_null s)
unfolding c_string_or_null c_memory
Fits-string none = refl
Fits-string (some bytes) = has_nul-append bytes

Fits-integer : (i : IntType) (n : ℤ) → IsValue (integer i) n → Fits (int_native i) (number n)
unfolding int_native
Fits-integer i8 n h = h
Fits-integer u8 n h = h
Fits-integer i16 n h = h
Fits-integer u16 n h = h
Fits-integer i32 n h = h
Fits-integer u32 n h = h
Fits-integer i64 n h = h
Fits-integer u64 n h = h
Fits-integer usize n h = h
Fits-integer isize n h = h

-- Whatever value is wrapped, what is passed on is a value of the C type declared for its type.
pub as_c_type-Fits :
    (t : ArgType) (v : Value t) → IsValue t v → Fits (native_type t) (as_c_type t (wrap t v))
unfolding as_c_type wrap native_type c_string_or_null c_memory
as_c_type-Fits (integer i) n h = Fits-integer i n h
as_c_type-Fits bool true h = omega arith
as_c_type-Fits bool false h = omega arith
as_c_type-Fits (reference t) v h = as_c_type-Fits t v h
as_c_type-Fits (option t) none h = Fits-default (native_type t)
as_c_type-Fits (option t) (some v) h = as_c_type-Fits t v h
as_c_type-Fits option_string none h = Fits-string none
as_c_type-Fits option_string (some s) h = Fits-string (new_c_string s)
as_c_type-Fits pointer p h = tt
as_c_type-Fits str s h = Fits-string (new_c_string s)
as_c_type-Fits string s h = Fits-string (new_c_string s)
as_c_type-Fits os_str s h = Fits-string (new_c_string s)
as_c_type-Fits os_string s h = Fits-string (new_c_string s)
as_c_type-Fits c_str s h = Fits-string (some s)
as_c_type-Fits c_string s h = Fits-string (some s)

-- What a reader of the C value makes of it.
pub data Seen : Type 0 where
  a_number : ℤ → Seen
  an_address : ℕ → Seen
  text : Bytes → Seen

abbrev before_nul : Bytes → Bytes
before_nul [] = []
before_nul (b ∷ bytes) = if b == 0 then [] else b ∷ before_nul bytes

abbrev pub read_c : CValue → Seen
read_c (number n) = a_number n
read_c (address p) = an_address p
read_c (memory bytes) = text (before_nul bytes)

-- What each Rust value means: text with a NUL inside cannot be passed on, and is null, and an absent
-- value is zero or null.
abbrev text_or_null : Bytes → Seen
text_or_null s = if has_nul s then an_address 0 else text s

abbrev absent : ArgType → Seen
absent t = elim (native_type t) [
  | void_pointer ↦ an_address 0
  | char_pointer ↦ an_address 0
  | uchar_pointer ↦ an_address 0
  | _ ↦ a_number (pos 0)
]

abbrev pub meaning : (t : ArgType) → Value t → Seen
meaning (integer i) n = a_number n
meaning bool b = a_number (pos (if b then 1 else 0))
meaning (reference t) v = meaning t v
meaning (option t) none = absent t
meaning (option t) (some v) = meaning t v
meaning option_string none = an_address 0
meaning option_string (some s) = text_or_null s
meaning pointer p = an_address p
meaning str s = text_or_null s
meaning string s = text_or_null s
meaning os_str s = text_or_null s
meaning os_string s = text_or_null s
meaning c_str s = text s
meaning c_string s = text s

before_nul-append : (s : Bytes) → has_nul s ≡ false → before_nul (s ++ 0 ∷ []) ≡ s
before_nul-append [] h = refl
before_nul-append (b ∷ s) h = ground (arith, before_nul-append s)

read_c-string : (s : Bytes) → read_c (c_string_or_null (new_c_string s)) ≡ text_or_null s
unfolding c_string_or_null c_memory new_c_string
read_c-string s = elim (Bool-cases (has_nul s)) [
  | inl nul ↦ rw nul
  | inr clean ↦ rw clean (ap text (before_nul-append s clean))
]

read_c-absent :
    (t : NativeType)
    → read_c (default_value t) ≡ elim t [
      | void_pointer ↦ an_address 0
      | char_pointer ↦ an_address 0
      | uchar_pointer ↦ an_address 0
      | _ ↦ a_number (pos 0)
    ]
unfolding default_value
read_c-absent void_pointer = refl
read_c-absent char_pointer = refl
read_c-absent _ = refl

-- The C side reads what the Rust value means.
pub read_c-as_c_type :
    (t : ArgType) (v : Value t) → IsValue t v → read_c (as_c_type t (wrap t v)) ≡ meaning t v
unfolding as_c_type wrap c_string_or_null c_memory
read_c-as_c_type (integer i) n h = refl
read_c-as_c_type bool true h = refl
read_c-as_c_type bool false h = refl
read_c-as_c_type (reference t) v h = read_c-as_c_type t v h
read_c-as_c_type (option t) none h = read_c-absent (native_type t)
read_c-as_c_type (option t) (some v) h = read_c-as_c_type t v h
read_c-as_c_type option_string none h = refl
read_c-as_c_type option_string (some s) h = read_c-string s
read_c-as_c_type pointer p h = refl
read_c-as_c_type str s h = read_c-string s
read_c-as_c_type string s h = read_c-string s
read_c-as_c_type os_str s h = read_c-string s
read_c-as_c_type os_string s h = read_c-string s
read_c-as_c_type c_str s h = ap text (before_nul-append s h)
read_c-as_c_type c_string s h = ap text (before_nul-append s h)
