-- ===== src/Hashing.antt =====
-- tracers-codegen/src/hashing.rs. The hash itself is the crate `twox_hash`'s: where one is computed,
-- the function is a parameter.
pub mod Laws
use tracers.Prelude.{ℕ, String, ◌<>◌, Option, none, some}
use tracers.Prelude.Radix.{hex}
use tracers.Std.FilePath.{FilePath, file_stem, extension, set_file_name}

-- A `u64`.
abbrev pub HashCode : Type 0
HashCode = ℕ

abbrev pub dotted : Option String → String
dotted (some ext) = "." <> ext
dotted none = ""

-- `none` is the panic "path is missing a file name".
unfoldable pub add_hash_to_path : FilePath → HashCode → Option FilePath
unfolding hex
add_hash_to_path path hash = elim (file_stem path) [
  | none ↦ none
  | some name ↦
      let ext = dotted (extension path) in
      some (set_file_name path (name <> "-" <> hex hash <> ext))
]
