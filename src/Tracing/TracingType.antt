-- ===== src/Tracing/TracingType.antt =====
-- `TracingType` of tracers-codegen/src/lib.rs. `strum` derives `as_ref` and `from_str` from the
-- `serialize` attributes, which are written out here.
use tracers.Prelude.{String, Bool, true, false, Option, none, some, str_eq, if◌then◌else◌}

pub data TracingType : Type 0 where
  disabled static dynamic : TracingType

abbrev pub is_enabled : TracingType → Bool
is_enabled disabled = false
is_enabled _ = true

unfoldable pub as_ref : TracingType → String
as_ref disabled = "disabled"
as_ref static = "static"
as_ref dynamic = "dynamic"

unfoldable pub from_str : String → Option TracingType
from_str s =
    if str_eq s "disabled"
    then some disabled
    else if str_eq s "static"
    then some static
    else if str_eq s "dynamic"
    then some dynamic
    else none
