-- ===== src/Core/Conversion.antt =====
-- `wrap` and `as_c_type` of tracers-core/src/argtypes/*.rs. A pointer to a string is what a C reader
-- finds behind it: the bytes before the first NUL.
use tracers.Prelude.{ℕ, true, false, Option, none, some, [], ◌∷◌, ◌++◌, if◌then◌else◌}
use tracers.Core.CType.{NativeType, void_pointer, char_pointer, uchar_pointer}
use tracers.Core.ArgType.{
  ArgType, integer, bool, str, string, os_str, os_string, c_str, c_string, reference, option,
  option_string, pointer, ℤ, pos, Bytes, has_nul, Value, Wrapper, native_type,
}

-- A C value: a number, an address, or a pointer to memory that begins with these bytes.
pub data CValue : Type 0 where
  number : ℤ → CValue
  address : ℕ → CValue
  memory : Bytes → CValue

-- `ptr::null()`
abbrev pub null : CValue
null = address 0

-- `CString::new(bytes).ok()`
unfoldable pub new_c_string : Bytes → Option Bytes
new_c_string bytes = if has_nul bytes then none else some bytes

unfoldable pub wrap : (t : ArgType) → Value t → Wrapper t
unfolding new_c_string
wrap (integer _) n = n
wrap bool b = b
wrap (reference t) v = wrap t v
wrap (option t) none = none
wrap (option t) (some v) = some (wrap t v)
wrap option_string none = none
wrap option_string (some s) = new_c_string s
wrap pointer p = p
wrap str s = new_c_string s
wrap string s = new_c_string s
wrap os_str s = new_c_string s
wrap os_string s = new_c_string s
wrap c_str s = s
wrap c_string s = s

-- `get_default_value`
unfoldable pub default_value : NativeType → CValue
default_value void_pointer = null
default_value char_pointer = null
default_value uchar_pointer = null
default_value _ = number (pos 0)

-- A `CString`'s memory ends with a NUL.
unfoldable pub c_memory : Bytes → CValue
c_memory bytes = memory (bytes ++ 0 ∷ [])

unfoldable pub c_string_or_null : Option Bytes → CValue
unfolding c_memory
c_string_or_null none = null
c_string_or_null (some bytes) = c_memory bytes

unfoldable pub as_c_type : (t : ArgType) → Wrapper t → CValue
unfolding c_string_or_null c_memory
as_c_type (integer _) n = number n
as_c_type bool true = number (pos 1)
as_c_type bool false = number (pos 0)
as_c_type (reference t) w = as_c_type t w
as_c_type (option t) none = default_value (native_type t)
as_c_type (option t) (some w) = as_c_type t w
as_c_type option_string w = c_string_or_null w
as_c_type pointer p = address p
as_c_type str w = c_string_or_null w
as_c_type string w = c_string_or_null w
as_c_type os_str w = c_string_or_null w
as_c_type os_string w = c_string_or_null w
as_c_type c_str bytes = c_memory bytes
as_c_type c_string bytes = c_memory bytes
