-- ===== src/Gen/Rust.antt =====
-- The Rust code that tracers-codegen/src/gen makes with `quote!`, by its parts: each record or
-- constructor stands for one template, and its fields for what is put into the template.
pub mod Dynamic
use tracers.Prelude.{String, Bool, Option, List}
use tracers.Syn.Types.{SynType}
use tracers.Spec.Probe.{TraitItemMethod}
use tracers.Spec.Provider.{Attribute}
use tracers.Spec.ProbeCall.{SynPath, Expr}

-- `()`, or the elements in parentheses with a comma behind each.
pub data Tuple {ℓ} (A : Type ℓ) : Type ℓ where
  unit : Tuple A
  elements : List A → Tuple A

-- What a probe method of the static struct does: `let _ = arg;` for each argument, or the wrapping of
-- each, `let arg = ::tracers::runtime::wrap(arg);`, and `mod_name::probe(arg.as_c_type(), …);`.
pub data MethodBody : Type 0 where
  discard : List String → MethodBody
  -- the arguments, whether in an `unsafe` block, the module, and the function
  forward : List String → Bool → String → String → MethodBody

pub record TraitMethod : Type 0 where
  pub doc : List String
  pub deprecated : String
  pub allow_dead_code : Bool
  pub vis : String
  pub sig : TraitItemMethod
  pub body : MethodBody

-- `vis struct ident;` and its `impl`, whose `__try_init_provider` returns `Ok` of the three texts of
-- `info` with `::` between them.
pub record TracerStruct : Type 0 where
  pub attrs : List Attribute
  pub doc : List String
  pub vis : String
  pub ident : String
  pub methods : List TraitMethod
  pub info : List String

-- `pub fn name(arg: type, …)`, with `#[link_name = …]` and no body, or with the body `let _ = arg;` for
-- each argument.
pub record NativeFunc : Type 0 where
  pub link_name : Option String
  pub name : String
  pub args : List (String × String)
  pub body : Option (List String)

pub data NativeEnabled : Type 0 where
  -- `pub static name: u16`, linked by a name in the section `.probes`, or `= 0`
  semaphore : Option String → String → NativeEnabled
  -- `#[link_name = …] pub fn name() -> bool;`
  enabled_func : String → String → NativeEnabled

-- `pub fn name() -> bool`, which reads the semaphore
pub record RustEnabled : Type 0 where
  pub name : String
  pub semaphore : String

-- `pub fn name<lifetimes>(arg: type, …) -> (WrapperType of each,) { (wrap(arg),) }`
pub record WrapperFunc : Type 0 where
  pub name : String
  pub lifetimes : List String
  pub args : List (String × SynType)
  pub returns : Tuple SynType
  pub wraps : Tuple String

-- Nothing stands for `quote! {}`.
pub record ModContents : Type 0 where
  pub vis : String
  pub name : String
  pub imports_libc : Bool
  pub wrapper_funcs : List (Option WrapperFunc)
  pub native_declarations : List (NativeFunc × NativeEnabled)

pub data ImplMod : Type 0 where
  no_mod : ImplMod
  -- functions that do nothing
  dummy : ModContents → ImplMod
  -- with the functions `…_enabled`, and the declarations in an `extern "C"` block, linked with a library
  extern_c : ModContents → List (Option RustEnabled) → Option String → ImplMod

pub data Condition : Type 0 where
  constant_false : Condition
  -- `unsafe { path::func() }`
  unsafe_call : SynPath → String → Condition

-- `let (vars) = path::func(args);`
pub record WrapStatement : Type 0 where
  pub vars : Tuple String
  pub mod_path : SynPath
  pub func : String
  pub args : List String

-- `if condition { wrap unsafe { mod_path::func(param.as_c_type(), …); } }`
pub record FireCode : Type 0 where
  pub condition : Condition
  pub wrap : Option WrapStatement
  pub is_unsafe : Bool
  pub mod_path : SynPath
  pub func : String
  pub params : List String

pub data CallCode : Type 0 where
  -- `if false { #[allow(deprecated)] call }`
  never : Expr → CallCode
  fire : FireCode → CallCode
  -- `if let Some(probe) = provider::func() { if probe.is_enabled() { probe.fire(args); } }`
  dynamic_fire : SynPath → String → Tuple String → CallCode

-- `provider::__try_init_provider()`
pub data InitCode : Type 0 where
  try_init : SynPath → InitCode
