-- ===== src/Std/Environment.antt =====
-- `std::env::var`: a variable that is set to valid Unicode, or an error.
use tracers.Prelude.{String, Bool, true, false, Option, none, some}
use tracers.Prelude.{ok, err}
use tracers.Error.{Fallible, format_err, context}

abbrev pub Environment : Type 0
Environment = String → Option String

-- `env::var(name).is_ok()`
abbrev pub is_set : Environment → String → Bool
is_set env name = elim (env name) [ some _ ↦ true | none ↦ false ]

-- `env::var(name).context(text)`
abbrev pub var_with_context : Environment → String → String → Fallible String
var_with_context env name text = elim (env name) [
  | some value ↦ ok value
  | none ↦ err (context text (format_err "environment variable not found"))
]
