-- ===== src/Error.antt =====
-- tracers-codegen/src/error.rs: the error type, its text, and its form as a compiler error.
-- A span is where in the user's source an error is shown: the call site of a macro, or an element.
-- The constructors of the source's `impl` stand in the module `Error.Raise`, under their names.
pub mod Raise
use tracers.Prelude.{
  ℕ, String, ◌<>◌, Bool, true, false, Option, none, some, List, [], ◌∷◌, ◌≡◌, refl, Result,
}
use tracers.Std.FilePath
use tracers.Std.FilePath.{FilePath}

pub data Span : Type 0 where
  call_site : Span
  element : ℕ → Span

-- `syn::Error`
pub record SynError : Type 0 where
  pub span : Span
  pub text : String

-- `failure::Error`: a wrapped `syn::Error`, or a message with the messages of its causes.
pub data Failure : Type 0 where
  syn : SynError → Failure
  chain : String → List String → Failure

pub data TracersError : Type 0 where
  invalid_provider : String → Failure → TracersError
  syn_error : String → Failure → TracersError
  darling_error : String → TracersError
  invalid_call_expression : String → Failure → TracersError
  other_error : String → Failure → TracersError
  missing_call_in_build_rs : TracersError
  build_info_read_error : String → String → Failure → TracersError
  build_info_write_error : String → String → Failure → TracersError
  provider_trait_not_processed_error : String → String → Failure → TracersError
  code_generation_error : String → TracersError
  native_code_generation_error : String → Failure → TracersError

abbrev pub TracersResult {ℓ} : Type ℓ → Type ℓ
TracersResult A = Result TracersError A

abbrev pub Fallible {ℓ} : Type ℓ → Type ℓ
Fallible A = Result Failure A

-- `format_err!(message)`
abbrev pub format_err : String → Failure
format_err message = chain message []

-- `e.to_string()` of a `failure::Error`
abbrev pub failure_text : Failure → String
failure_text (syn e) = e.text
failure_text (chain message causes) = message

-- `e.context(text)`
abbrev pub context : String → Failure → Failure
context text (syn e) = chain text (e.text ∷ [])
context text (chain message causes) = chain text (message ∷ causes)

-- `impl Display for TracersError`
unfoldable pub display : TracersError → String
display (invalid_provider message _) = message
display (syn_error message _) = message
display (darling_error message) = message
display (invalid_call_expression message _) = message
display (other_error message _) = message
display missing_call_in_build_rs =
    "Build environment is incomplete; make sure you are calling `tracers_build::build()` in your `build.rs` build script"
display (build_info_read_error message _ _) = message
display (build_info_write_error message _ _) = message
display (provider_trait_not_processed_error message _ _) = message
display (code_generation_error message) = "Error generating probing code: " <> message
display (native_code_generation_error message _) =
    "Error generating or compiling native C++ wrapper code: " <> message

error_as_syn_error : Failure → SynError
error_as_syn_error (syn e) = e
error_as_syn_error (chain message causes) = record { span = call_site; text = message }

unfoldable pub into_syn_error : TracersError → SynError
unfolding error_as_syn_error display
into_syn_error (invalid_provider _ e) = error_as_syn_error e
into_syn_error (syn_error _ e) = error_as_syn_error e
into_syn_error (invalid_call_expression _ e) = error_as_syn_error e
into_syn_error other = record { span = call_site; text = display other }

-- `", ".join` and its like: the texts with `separator` between them.
abbrev pub join : String → List String → String
join separator [] = ""
join separator (s ∷ []) = s
join separator (s ∷ t ∷ rest) = s <> separator <> join separator (t ∷ rest)

-- `error_string` and `fail_string`: the message and its causes.
unfoldable pub error_string : Failure → String
error_string (syn e) = e.text
error_string (chain message causes) = join ": " (message ∷ causes)

-- `iter_chain` of an error's cause
causes : Failure → List String
causes (syn e) = e.text ∷ []
causes (chain message rest) = message ∷ rest

-- What `#[fail(cause)]` marks.
cause_texts : TracersError → List String
cause_texts (invalid_provider _ e) = causes e
cause_texts (syn_error _ e) = causes e
cause_texts (invalid_call_expression _ e) = causes e
cause_texts (other_error _ e) = causes e
cause_texts (build_info_read_error _ _ e) = causes e
cause_texts (build_info_write_error _ _ e) = causes e
cause_texts (provider_trait_not_processed_error _ _ e) = causes e
cause_texts (native_code_generation_error _ e) = causes e
cause_texts _ = []

-- `e.into()`, where `?` takes an error into a `failure::Error`.
unfoldable pub into_failure : TracersError → Failure
unfolding display cause_texts causes
into_failure e = chain (display e) (cause_texts e)
