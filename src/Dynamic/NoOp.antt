-- ===== src/Dynamic/NoOp.antt =====
-- tracers-dyn-noop/src: a tracer whose calls all work and do nothing.
use tracers.Prelude.{String, Bool, false, List, Result, ok, err}
use tracers.Core.ArgType.{ArgType}
use tracers.Dynamic.{ProbeDefinition}

pub data NoOpProviderBuilder : Type 0 where
  no_op_builder : NoOpProviderBuilder

pub data NoOpProvider : Type 0 where
  no_op_provider : NoOpProvider

pub data NoOpProbe : Type 0 where
  no_op_probe : NoOpProbe

module _ {E : Type 0} where
  unfoldable pub add_probe :
      NoOpProviderBuilder → String → List ArgType → Result E NoOpProviderBuilder
  add_probe builder name args = ok builder

  unfoldable pub build : NoOpProviderBuilder → String → Result E NoOpProvider
  build builder name = ok no_op_provider

  unfoldable pub get_probe_unsafe : NoOpProvider → ProbeDefinition → Result E NoOpProbe
  get_probe_unsafe provider definition = ok no_op_probe

  unfoldable pub define_provider :
      String → (NoOpProviderBuilder → Result E NoOpProviderBuilder) → Result E NoOpProvider
  define_provider name f = elim (f no_op_builder) [ ok builder ↦ ok no_op_provider | err e ↦ err e ]

unfoldable pub is_enabled : NoOpProbe → Bool
is_enabled probe = false
