-- ===== src/Cargo.antt =====
-- tracers-codegen/src/cargo.rs: the targets of a package. What `cargo metadata` answers for a manifest is
-- a parameter.
use tracers.Prelude.{
  String, ◌<>◌, Option, none, some, List, [], ◌∷◌, map, Result, ok, err, str_eq, if◌then◌else◌,
}
use tracers.Std.FilePath.{FilePath}
use tracers.Error.{Failure, Fallible, format_err, failure_text}

pub record Target : Type 0 where
  pub src_path : FilePath

pub record Package : Type 0 where
  pub name : String
  pub targets : List Target

unfoldable pub find_package : String → List Package → Option Package
find_package name [] = none
find_package name (p ∷ rest) =
    let later = find_package name rest in if str_eq p.name name then some p else later

unfoldable pub get_targets :
    (FilePath → Result Failure (List Package)) → FilePath → String → Fallible (List FilePath)
unfolding find_package
get_targets metadata manifest_path package_name = elim (metadata manifest_path) [
  | err e ↦ err (format_err ("cargo metadata invocation failed: " <> failure_text e))
  | ok packages ↦ elim (find_package package_name packages) [
    | none ↦ err (format_err ("Unable to find package " <> package_name <> " in cargo metadata"))
    | some p ↦ ok (map (λ (t : Target). t.src_path) p.targets)
  ]
]
