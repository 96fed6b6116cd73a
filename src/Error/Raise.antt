-- ===== src/Error/Raise.antt =====
-- The functions of `impl TracersError` (tracers-codegen/src/error.rs) that build an error. Where the
-- source takes a syntax element, for its span, they take the span.
use tracers.Prelude.{String, ◌<>◌}
use tracers.Std.FilePath
use tracers.Std.FilePath.{FilePath}
use tracers.Error.{Span, SynError, Failure, TracersError, failure_text, error_string}

-- `new_syn_error` and `wrap_syn_error`
new_syn_error : String → Span → Failure
new_syn_error message span = Failure.syn (record { span = span; text = message })

unfoldable pub invalid_provider : String → Span → TracersError
unfolding new_syn_error
invalid_provider message span =
    let message' = "There's a problem with this provider trait: " <> message in
    TracersError.invalid_provider message' (new_syn_error message' span)

unfoldable pub syn_error : String → SynError → TracersError
unfolding new_syn_error
syn_error message e =
    let message' = "Parse error: " <> message <> "\nDetails: " <> e.text in
    TracersError.syn_error message' (new_syn_error message' e.span)

unfoldable pub syn_like_error : String → Span → TracersError
unfolding syn_error
syn_like_error message span = syn_error message (record { span = span; text = message })

unfoldable pub darling_error : String → TracersError
darling_error text = TracersError.darling_error text

unfoldable pub invalid_call_expression : String → Span → TracersError
unfolding new_syn_error
invalid_call_expression message span =
    let message' = "Invalid call expression: " <> message in
    TracersError.invalid_call_expression message' (new_syn_error message' span)

unfoldable pub other_error : Failure → TracersError
unfolding error_string
other_error e = TracersError.other_error (error_string e) e

unfoldable pub missing_call_in_build_rs : TracersError
missing_call_in_build_rs = TracersError.missing_call_in_build_rs

unfoldable pub build_info_read_error : FilePath → Failure → TracersError
unfolding error_string FilePath.display
build_info_read_error path e =
    TracersError.build_info_read_error
      ("Unable to read build info from '"
        <> FilePath.display path
        <> "'.\nAre you sure you're calling `tracers_build::build()` in your `build.rs`?\nError cause: "
        <> error_string e)
      (FilePath.display path) e

unfoldable pub build_info_write_error : FilePath → Failure → TracersError
unfolding error_string FilePath.display
build_info_write_error path e =
    TracersError.build_info_write_error
      ("Unable to write build info from '"
        <> FilePath.display path
        <> "'.\nAre you sure you're calling `tracers_build::build()` in your `build.rs`?\nError cause: "
        <> error_string e)
      (FilePath.display path) e

unfoldable pub provider_trait_not_processed_error : String → Failure → TracersError
provider_trait_not_processed_error trait_name e =
    TracersError.provider_trait_not_processed_error
      ("The provider trait '"
        <> trait_name
        <> "' couldn't be processed by the code generator: "
        <> failure_text e
        <> "\nCheck your build output for errors.  Tracing will be disabled for this provider")
      trait_name e

unfoldable pub code_generation_error : String → TracersError
code_generation_error message = TracersError.code_generation_error message

unfoldable pub native_code_generation_error : String → Failure → TracersError
native_code_generation_error message e =
    TracersError.native_code_generation_error (message <> ": " <> failure_text e) e
