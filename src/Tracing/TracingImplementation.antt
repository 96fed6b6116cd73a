-- ===== src/Tracing/TracingImplementation.antt =====
-- `TracingImplementation` of tracers-codegen/src/lib.rs. The strings of the `props` attribute are
-- parsed at run time, and the results unwrapped: `none` stands for that panic.
use tracers.Prelude.{String, Bool, true, false, Option, none, some, ◌≡◌, refl}
use tracers.Tracing.TracingType
use tracers.Tracing.TracingType.{TracingType}
use tracers.Tracing.TracingTarget
use tracers.Tracing.TracingTarget.{TracingTarget}

pub data TracingImplementation : Type 0 where
  disabled static_stap static_lttng static_no_op dynamic_stap dynamic_no_op : TracingImplementation

-- `#[strum(serialize = …)]`
unfoldable pub as_ref : TracingImplementation → String
as_ref disabled = "disabled"
as_ref static_stap = "static_stap"
as_ref static_lttng = "static_lttng"
as_ref static_no_op = "static_noop"
as_ref dynamic_stap = "dyn_stap"
as_ref dynamic_no_op = "dyn_noop"

-- `get_str("type")`
type_prop : TracingImplementation → String
type_prop disabled = "disabled"
type_prop static_stap = "static"
type_prop static_lttng = "static"
type_prop static_no_op = "static"
type_prop dynamic_stap = "dynamic"
type_prop dynamic_no_op = "dynamic"

-- `get_str("target")`
target_prop : TracingImplementation → String
target_prop disabled = "disabled"
target_prop static_stap = "stap"
target_prop static_lttng = "lttng"
target_prop static_no_op = "noop"
target_prop dynamic_stap = "stap"
target_prop dynamic_no_op = "noop"

pub parse_type : TracingImplementation → Option TracingType
unfolding type_prop TracingType.from_str
parse_type i = TracingType.from_str (type_prop i)

pub parse_target : TracingImplementation → Option TracingTarget
unfolding target_prop TracingTarget.from_str
parse_target i = TracingTarget.from_str (target_prop i)

-- `.unwrap()` of the two results; `parse_succeeds` shows that the default is never taken.
unfoldable pub tracing_type : TracingImplementation → TracingType
unfolding parse_type
tracing_type i = elim (parse_type i) [ some t ↦ t | none ↦ TracingType.disabled ]

unfoldable pub tracing_target : TracingImplementation → TracingTarget
unfolding parse_target
tracing_target i = elim (parse_target i) [ some t ↦ t | none ↦ TracingTarget.disabled ]

unfoldable pub is_enabled : TracingImplementation → Bool
unfolding tracing_type
is_enabled i = TracingType.is_enabled (tracing_type i)

-- `self.tracing_type() == TracingType::Dynamic`
unfoldable pub is_dynamic : TracingImplementation → Bool
unfolding tracing_type
is_dynamic i = elim (tracing_type i) [ TracingType.dynamic ↦ true | _ ↦ false ]

unfoldable pub is_static : TracingImplementation → Bool
unfolding tracing_type
is_static i = elim (tracing_type i) [ TracingType.static ↦ true | _ ↦ false ]

-- The `props` of every implementation parse, so `tracing_type` and `tracing_target` never panic.
pub parse_succeeds :
    (i : TracingImplementation)
    → (parse_type i ≡ some (tracing_type i)) × (parse_target i ≡ some (tracing_target i))
unfolding parse_type parse_target tracing_type tracing_target
parse_succeeds disabled = (refl, refl)
parse_succeeds static_stap = (refl, refl)
parse_succeeds _ = (refl, refl)
