-- ===== src/Gen/Rust/Dynamic.antt =====
-- The Rust code that tracers-codegen/src/gen/dynamic makes with `quote!`: each record stands for one
-- template.
use tracers.Prelude.{String, List}
use tracers.Syn.Types.{SynType}
use tracers.Spec.Probe.{TraitItemMethod}
use tracers.Spec.Provider.{Attribute}
use tracers.Gen.Rust.{Tuple}

-- `::tracers::runtime::dynamic::ProviderProbe<'a, ::tracers::runtime::dynamic::SystemProbe, args>`
pub record ProbeType : Type 0 where
  pub lifetime : String
  pub args : Tuple SynType

-- The three methods of a probe, each with the path `mod_name::struct_name` and the member it reads:
-- the original one, which fires the tuple; the one that tells whether the probe is enabled; and the one
-- that returns the probe.
pub record ProbeMethods : Type 0 where
  pub doc : List String
  pub deprecated : String
  pub vis : String
  pub struct_type_path : String × String
  pub member : String
  pub original_method : TraitItemMethod
  pub fires : Tuple String
  pub enabled_method : TraitItemMethod
  pub probe_method : TraitItemMethod
  pub returns : ProbeType

-- `builder.add_probe::<args>(name).map_err(…)?;`
pub record AddProbeCall : Type 0 where
  pub args : Tuple SynType
  pub name : String

-- `member: provider.get_probe::<args>(name).map_err(…)?`
pub record StructInitializer : Type 0 where
  pub member : String
  pub args : Tuple SynType
  pub name : String

-- `vis struct ident;` and its `impl`; `__try_init_provider` gets `mod_name::struct_name` and returns the
-- three texts of `info` with `::` between them.
pub record TracerStruct : Type 0 where
  pub attrs : List Attribute
  pub doc : List String
  pub vis : String
  pub ident : String
  pub methods : List ProbeMethods
  pub struct_type_path : String × String
  pub info : List String

-- `SystemTracer::define_provider(&provider_name, |mut builder| { calls Ok(builder) })`
pub record DefineProviderCall : Type 0 where
  pub provider_name : String
  pub add_probe_calls : List AddProbeCall

-- The module, with the struct of the probes and its `get`
pub record ImplMod : Type 0 where
  pub name : String
  pub struct_type_name : String
  pub struct_type_params : List String
  pub struct_members : List (String × ProbeType)
  pub instance_var_name : String
  pub struct_var_name : String
  pub define_provider_call : DefineProviderCall
  pub struct_initializers : List StructInitializer
