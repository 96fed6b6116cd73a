-- ===== src/Hashing/Laws.antt =====
-- What `add_hash_to_path` keeps and tells apart (tracers-codegen/src/hashing.rs).
use mathlib.Core.Option.{some-injective}
use text.Mathlib.TextLemmas.{append_cancel_left, append_cancel_right}
use tracers.Prelude.{String, ◌<>◌, some, ◌≡◌, sym, ap, ◌∙◌}
use tracers.Prelude.Radix.{hex, hex_inj}
use tracers.Std.FilePath.{
  FilePath, file_stem, file_name, extension, set_file_name, join, pop, init, init-append,
  last-append,
}
use tracers.Hashing.{HashCode, add_hash_to_path, dotted}

pub file_name-set_file_name :
    (p : FilePath) (name : String) → file_name (set_file_name p name) ≡ some name
unfolding file_name set_file_name join
file_name-set_file_name p name = last-append (init p.components) name

pop-set_file_name : (p : FilePath) (name : String) → pop (set_file_name p name) ≡ pop p
unfolding set_file_name pop join
pop-set_file_name p name = rw init-append

-- Where the path has a file name, the hash goes between its stem and its extension, and the
-- directory stays.
add_hash_to_path_lem :
    (path : FilePath) (hash : HashCode) {stem : String}
    → file_stem path ≡ some stem
    → (hashed : FilePath) × (add_hash_to_path path hash ≡ some hashed)
      × (file_name hashed ≡ some (stem <> "-" <> hex hash <> dotted (extension path)))
      × (pop hashed ≡ pop path)
unfolding add_hash_to_path
add_hash_to_path_lem path hash {stem} named = (
  set_file_name path (stem <> "-" <> hex hash <> dotted (extension path)),
  rw (named, add_hash_to_path),
  file_name-set_file_name path _,
  pop-set_file_name path _,
)

-- Different hashes give different paths.
pub add_hash_to_path_inj :
    (path : FilePath) (g h : HashCode) {stem : String}
    → file_stem path ≡ some stem
    → add_hash_to_path path g ≡ add_hash_to_path path h
    → g ≡ h
add_hash_to_path_inj path g h {stem} named same =
    let (p, made, at_p, _) = add_hash_to_path_lem path g named in
    let (q, made', at_q, _) = add_hash_to_path_lem path h named in
    let ext = dotted (extension path) in
    let one_path : p ≡ q = some-injective p q (sym made ∙ same ∙ made') in
    let names : stem <> "-" <> hex g <> ext ≡ stem <> "-" <> hex h <> ext =
      some-injective _ _ (sym at_p ∙ ap file_name one_path ∙ at_q) in
    hex_inj g h (
      append_cancel_right (hex g) (hex h) ext
        (append_cancel_left "-" _ _ (append_cancel_left stem _ _ names)))
