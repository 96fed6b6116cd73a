-- ===== src/Tracing/TracingTarget.antt =====
-- `TracingTarget` of tracers-codegen/src/lib.rs, with what `strum` derives.
use tracers.Prelude.{String, Bool, true, false, Option, none, some, str_eq, if◌then◌else◌}

pub data TracingTarget : Type 0 where
  disabled stap lttng no_op : TracingTarget

-- `*self != Disabled && *self != NoOp`
abbrev pub is_enabled : TracingTarget → Bool
is_enabled disabled = false
is_enabled no_op = false
is_enabled _ = true

abbrev pub has_native_enabled_func : TracingTarget → Bool
has_native_enabled_func lttng = true
has_native_enabled_func _ = false

unfoldable pub as_ref : TracingTarget → String
as_ref disabled = "disabled"
as_ref stap = "stap"
as_ref lttng = "lttng"
as_ref no_op = "noop"

unfoldable pub from_str : String → Option TracingTarget
from_str s =
    if str_eq s "disabled"
    then some disabled
    else if str_eq s "stap"
    then some stap
    else if str_eq s "lttng"
    then some lttng
    else if str_eq s "noop"
    then some no_op
    else none
