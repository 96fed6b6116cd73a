-- ===== src/Core/CType.antt =====
-- `CType` of tracers-core/src/argtypes.rs, and the native types of argtypes/native.rs.
use tracers.Prelude.{String}

pub data CType : Type 0 where
  no_arg void_ptr char_ptr uchar_ptr char uchar short ushort int uint long ulong long_long : CType
  ulong_long size_t ssize_t : CType

-- `#[strum(serialize = …)]`
unfoldable pub to_str : CType → String
to_str no_arg = "void"
to_str void_ptr = "void*"
to_str char_ptr = "char*"
to_str uchar_ptr = "unsigned char*"
to_str char = "char"
to_str uchar = "unsigned char"
to_str short = "short"
to_str ushort = "unsigned short"
to_str int = "int"
to_str uint = "unsigned int"
to_str long = "long"
to_str ulong = "unsigned long"
to_str long_long = "long long"
to_str ulong_long = "unsigned long long"
to_str size_t = "size_t"
to_str ssize_t = "ssize_t"

-- The types with a `ProbeArgNativeType` of argtypes/native.rs, by their Rust names.
pub data NativeType : Type 0 where
  libc_size_t libc_ssize_t c_ulonglong c_longlong c_uint c_int c_ushort c_short : NativeType
  c_uchar c_char void_pointer char_pointer uchar_pointer : NativeType

unfoldable pub get_c_type : NativeType → CType
get_c_type libc_size_t = size_t
get_c_type libc_ssize_t = ssize_t
get_c_type c_ulonglong = ulong_long
get_c_type c_longlong = long_long
get_c_type c_uint = uint
get_c_type c_int = int
get_c_type c_ushort = ushort
get_c_type c_short = short
get_c_type c_uchar = uchar
get_c_type c_char = char
get_c_type void_pointer = void_ptr
get_c_type char_pointer = char_ptr
get_c_type uchar_pointer = uchar_ptr

-- `stringify!($rust_type)`
unfoldable pub get_rust_type_str : NativeType → String
get_rust_type_str libc_size_t = "libc::size_t"
get_rust_type_str libc_ssize_t = "libc::ssize_t"
get_rust_type_str c_ulonglong = "std::os::raw::c_ulonglong"
get_rust_type_str c_longlong = "std::os::raw::c_longlong"
get_rust_type_str c_uint = "std::os::raw::c_uint"
get_rust_type_str c_int = "std::os::raw::c_int"
get_rust_type_str c_ushort = "std::os::raw::c_ushort"
get_rust_type_str c_short = "std::os::raw::c_short"
get_rust_type_str c_uchar = "std::os::raw::c_uchar"
get_rust_type_str c_char = "std::os::raw::c_char"
get_rust_type_str void_pointer = "*const std::os::raw::c_void"
get_rust_type_str char_pointer = "*const std::os::raw::c_char"
get_rust_type_str uchar_pointer = "*const std::os::raw::c_uchar"
