-- ===== src/Dynamic/Stap.antt =====
-- tracers-dyn-stap/src/provider.rs and tracer.rs: providers made by calls of the C library libstapsdt.
-- The library is a parameter: what it answers to a call may depend on all the calls before. The calls
-- are recorded. A pointer is a number, and `none` where it is null.
pub mod Steps
pub mod Builder
pub mod Found
pub mod Registered
pub mod Protocol
use Prim.Native.Char.{code}
use Prim.Native.Nat.{bit_and}
use Prim.Native.String
use tracers.Prelude.{
  ℕ, String, Bool, true, false, Option, none, some, List, [], ◌∷◌, ◌++◌, map, Result, ok, err, ◌==◌,
  if◌then◌else◌, str_eq, any,
}
use tracers.Core.CType
use tracers.Core.CType.{CType}
use tracers.Core.ArgType.{ArgType}
use tracers.Dynamic.{ProbeDefinition, new as new_definition, definition_eq}

pub data StapError : Type 0 where
  probe_name_required : StapError
  duplicate_probe_name : String → StapError
  native_call_failed : String → StapError
  probe_definition_not_found : ProbeDefinition → StapError

-- `failure::Error`, into which the code's errors and a `NulError` are converted.
pub data DynamicError : Type 0 where
  stap : StapError → DynamicError
  nul_error : String → DynamicError

pub record StapProviderBuilder : Type 0 where
  pub probes : List ProbeDefinition

abbrev pub empty_builder : StapProviderBuilder
empty_builder = record { probes = [] }

-- `ProviderBuilder::add_probe::<ArgsT>`: the builder after it.
unfoldable pub add_probe :
    StapProviderBuilder → String → List ArgType → Result DynamicError StapProviderBuilder
unfolding new_definition
add_probe builder name args =
    if str_eq name ""
    then err (stap probe_name_required)
    else if any (λ p. str_eq p.name name) builder.probes
    then err (stap (duplicate_probe_name name))
    else ok (record { probes = builder.probes ++ new_definition name args ∷ [] })

-- The constants `ArgType_t_…` of libstapsdt
pub data NativeArgType : Type 0 where
  noarg uint8 int8 uint16 int16 uint32 int32 uint64 int64 : NativeArgType

-- What is called, with what, and what it returned.
pub data Call : Type 0 where
  provider_init : String → Option ℕ → Call
  -- the provider, the name, the number of arguments, and the variadic ones
  provider_add_probe : ℕ → String → ℕ → List NativeArgType → Option ℕ → Call
  -- whether it returned 0
  provider_load : ℕ → Bool → Call
  provider_unload : ℕ → Call
  provider_destroy : ℕ → Call

abbrev pub Log : Type 0
Log = List Call

pub record Libstapsdt : Type 0 where
  pub init : Log → String → Option ℕ
  pub add : Log → ℕ → String → ℕ → List NativeArgType → Option ℕ
  pub load : Log → ℕ → Bool

abbrev pub Native : Type 0 → Type 0
Native A = Log → Result DynamicError A × Log

abbrev pub pure : {A : Type 0} → A → Native A
pure a log = (ok a, log)

abbrev pub fail : {A : Type 0} → DynamicError → Native A
fail e log = (err e, log)

abbrev pub after :
    {A B : Type 0} → (A → Native B) → Result DynamicError A × Log → Result DynamicError B × Log
after f (ok a, log) = f a log
after f (err e, log) = (err e, log)

infixl 5 ◌>>=◌ ◌>>◌
abbrev pub ◌>>=◌ : {A B : Type 0} → Native A → (A → Native B) → Native B
◌>>=◌ m f log = after f (m log)

abbrev pub ◌>>◌ : {A B : Type 0} → Native A → Native B → Native B
◌>>◌ m n = m >>= λ _. n

-- A call is recorded behind those before it.
abbrev pub made : {A : Type 0} → (Log → A) → (A → Call) → Native A
made answer call log = (ok (answer log), log ++ call (answer log) ∷ [])

abbrev pub has_nul : String → Bool
has_nul String.[] = false
has_nul (String.◌∷◌ c s) = if code c == 0 then true else has_nul s

-- `CString::new(name)?`
abbrev pub c_string : String → Native String
c_string name = if has_nul name then fail (nul_error name) else pure name

-- `is_null`, and the error where it is.
abbrev pub not_null : String → Option ℕ → Native ℕ
not_null func (some p) = pure p
not_null func none = fail (stap (native_call_failed func))

pub record StapProvider : Type 0 where
  pub provider : ℕ
  pub probes : List (ProbeDefinition × ℕ)

unfoldable pub get_arg_type : CType → NativeArgType
get_arg_type CType.no_arg = noarg
get_arg_type CType.char = int8
get_arg_type CType.uchar = uint8
get_arg_type CType.short = int16
get_arg_type CType.ushort = uint16
get_arg_type CType.int = int32
get_arg_type CType.uint = uint32
get_arg_type CType.long = int64
get_arg_type CType.ulong = uint64
get_arg_type CType.long_long = int64
get_arg_type CType.ulong_long = uint64
get_arg_type CType.ssize_t = int64
get_arg_type CType.size_t = uint64
get_arg_type CType.void_ptr = uint64
get_arg_type CType.char_ptr = uint64
get_arg_type CType.uchar_ptr = uint64

-- `match arg_types.len()`: the number and the types that are passed on.
unfoldable pub variadic : List NativeArgType → ℕ × List NativeArgType
variadic [] = (0, [])
variadic (a ∷ []) = (1, a ∷ [])
variadic (a ∷ b ∷ []) = (2, a ∷ b ∷ [])
variadic (a ∷ b ∷ c ∷ []) = (3, a ∷ b ∷ c ∷ [])
variadic (a ∷ b ∷ c ∷ d ∷ []) = (4, a ∷ b ∷ c ∷ d ∷ [])
variadic (a ∷ b ∷ c ∷ d ∷ e ∷ []) = (5, a ∷ b ∷ c ∷ d ∷ e ∷ [])
variadic (a ∷ b ∷ c ∷ d ∷ e ∷ f ∷ _) = (6, a ∷ b ∷ c ∷ d ∷ e ∷ f ∷ [])

-- `HashMap::insert`
unfoldable pub insert :
    ProbeDefinition → ℕ → List (ProbeDefinition × ℕ) → List (ProbeDefinition × ℕ)
unfolding definition_eq
insert d p [] = (d, p) ∷ []
insert d p ((e, q) ∷ rest) = if definition_eq e d then (e, p) ∷ rest else (e, q) ∷ insert d p rest

-- `HashMap::get`
unfoldable pub get : ProbeDefinition → List (ProbeDefinition × ℕ) → Option ℕ
unfolding definition_eq
get d [] = none
get d ((e, p) ∷ rest) = if definition_eq e d then some p else get d rest

unfoldable pub get_probe_unsafe : StapProvider → ProbeDefinition → Result DynamicError ℕ
unfolding get
get_probe_unsafe provider definition = elim (get definition provider.probes) [
  | some probe ↦ ok probe
  | none ↦ err (stap (probe_definition_not_found definition))
]

-- `Drop`; the pointer is not null, since `new` has seen to that.
unfoldable pub drop : StapProvider → Log → Log
drop provider log =
    log ++ provider_unload provider.provider ∷ provider_destroy provider.provider ∷ []

-- A provider that is given up is dropped on the way out.
unfoldable pub or_drop :
    StapProvider → Result DynamicError StapProvider × Log → Result DynamicError StapProvider × Log
unfolding drop
or_drop provider (ok p, log) = (ok p, log)
or_drop provider (err e, log) = (err e, drop provider log)

module _ (lib : Libstapsdt) where
  unfoldable pub new : String → Native StapProvider
  new name = do
    c_name ← c_string name
    answer ← made (λ log. lib.init log c_name) (provider_init c_name)
    provider ← not_null "providerInit" answer
    pure (record { provider = provider; probes = [] })

  -- `StapProvider::add_probe`
  unfoldable pub create_probe : StapProvider → ProbeDefinition → Native StapProvider
  unfolding get_arg_type variadic insert
  create_probe provider definition = do
    c_name ← c_string definition.name
    let args = variadic (map get_arg_type definition.arg_types)
    answer ←
        made (λ log. lib.add log provider.provider c_name args.0 args.1)
          (provider_add_probe provider.provider c_name args.0 args.1)
    probe ← not_null "providerAddProbe" answer
    pure (record provider { probes = insert definition probe provider.probes })

  loaded : Bool → Native (Unit {0})
  loaded true = pure tt
  loaded false = fail (stap (native_call_failed "providerLoad"))

  unfoldable pub load : StapProvider → Native (Unit {0})
  unfolding loaded
  load provider = do
    zero ← made (λ log. lib.load log provider.provider) (provider_load provider.provider)
    loaded zero

  unfoldable pub create_probes : StapProvider → List ProbeDefinition → Native StapProvider
  unfolding create_probe
  create_probes provider [] = pure provider
  create_probes provider (probe ∷ rest) = do
    provider' ← create_probe provider probe
    create_probes provider' rest

  unfoldable pub fill : StapProvider → List ProbeDefinition → Native StapProvider
  unfolding create_probes load
  fill provider probes = do
    provider' ← create_probes provider probes
    load provider'
    pure provider'

  unfoldable pub build : StapProviderBuilder → String → Native StapProvider
  unfolding new fill or_drop
  build builder name = do
    provider ← new name
    λ log. or_drop provider (fill provider builder.probes log)

  -- `Tracer::define_provider`; `f` is the caller's closure.
  unfoldable pub define_provider :
      String → (StapProviderBuilder → Result DynamicError StapProviderBuilder) → Native StapProvider
  unfolding build
  define_provider name f = do builder ← λ log. (f empty_builder, log); build builder name

-- `StapProbe::is_enabled`, on the byte that `_fire` points to, `none` where it is null.
unfoldable pub is_enabled : Option ℕ → Bool
is_enabled none = false
is_enabled (some byte) = if bit_and byte 0x90 == 0x90 then false else true
