-- ===== src/Core/ArgType.antt =====
-- The types with a `ProbeArgType` and their values (tracers-core/src/argtypes/*.rs), and the C types
-- of their wrappers. A value of a reference is the value that it refers to.
use tracers.Prelude.{ℕ, Bool, Option, List, ◌==◌, any}
use tracers.Core.CType.{
  NativeType, libc_size_t, libc_ssize_t, c_ulonglong, c_longlong, c_uint, c_int, c_ushort, c_short,
  c_uchar, c_char, void_pointer, char_pointer,
}

pub data IntType : Type 0 where
  i8 u8 i16 u16 i32 u32 i64 u64 usize isize : IntType

pub data ArgType : Type 0 where
  integer : IntType → ArgType
  bool : ArgType
  -- `&str`, `&String`, `&OsStr`, `&OsString`, `&CStr` and `&CString`
  str string os_str os_string c_str c_string : ArgType
  -- `&T`
  reference : ArgType → ArgType
  -- `&Option<T>`
  option : ArgType → ArgType
  -- `&Option<String>`
  option_string : ArgType
  -- `*const T`, whatever `T`
  pointer : ArgType

-- Integers, of which `negsuc n` is -(n + 1).
pub data ℤ : Type 0 where
  pos : ℕ → ℤ
  negsuc : ℕ → ℤ

abbrev pub Bytes : Type 0
Bytes = List ℕ

-- The bytes of a `CString`, of which none is 0 (`has_nul` of them is `false`).
abbrev pub has_nul : Bytes → Bool
has_nul = any (λ b. b == 0)

abbrev pub Value : ArgType → Type 0
Value (integer _) = ℤ
Value bool = Bool
Value (reference t) = Value t
Value (option t) = Option (Value t)
Value option_string = Option Bytes
Value pointer = ℕ
Value str = Bytes
Value string = Bytes
Value os_str = Bytes
Value os_string = Bytes
Value c_str = Bytes
Value c_string = Bytes

-- `WrapperType`: strings are kept as `Option<CString>`.
abbrev pub Wrapper : ArgType → Type 0
Wrapper (integer _) = ℤ
Wrapper bool = Bool
Wrapper (reference t) = Wrapper t
Wrapper (option t) = Option (Wrapper t)
Wrapper option_string = Option Bytes
Wrapper pointer = ℕ
Wrapper str = Option Bytes
Wrapper string = Option Bytes
Wrapper os_str = Option Bytes
Wrapper os_string = Option Bytes
Wrapper c_str = Bytes
Wrapper c_string = Bytes

unfoldable pub int_native : IntType → NativeType
int_native usize = libc_size_t
int_native isize = libc_ssize_t
int_native u64 = c_ulonglong
int_native i64 = c_longlong
int_native u32 = c_uint
int_native i32 = c_int
int_native u16 = c_ushort
int_native i16 = c_short
int_native u8 = c_uchar
int_native i8 = c_char

-- `CType` of the wrapper
unfoldable pub native_type : ArgType → NativeType
unfolding int_native
native_type (integer i) = int_native i
native_type bool = c_int
native_type (reference t) = native_type t
native_type (option t) = native_type t
native_type pointer = void_pointer
native_type _ = char_pointer
