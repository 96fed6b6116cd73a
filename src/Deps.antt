-- ===== src/Deps.antt =====
-- tracers-codegen/src/deps.rs: the source files that a source file refers to by `mod name;`.
pub mod Resolution
use tracers.Prelude.{
  String, ◌<>◌, Bool, true, false, Option, none, some, List, [], ◌∷◌, ◌++◌, Result, ok, err,
  if◌then◌else◌, ◌==◌, ◌&&◌,
}
use Prim.Native.Char.{code}
use tracers.Std.FilePath.{FilePath, pop, join, relative}
use tracers.Std.Disk.{Disk, exists}
use tracers.Error.{Fallible, format_err}
use tracers.Spec.Provider.{Item, item_trait, mod_inline, mod_file, nested, Items, no_items, item}

pub data SourceDependency : Type 0 where
  module_named : String → SourceDependency

-- `starts_with("r#")` and `split_off(2)`
unfoldable pub strip_raw : String → String
strip_raw (String.◌∷◌ c (String.◌∷◌ d s)) =
    if code c == 114 && (code d == 35) then s else String.◌∷◌ c (String.◌∷◌ d s)
strip_raw s = s

-- The visitor's `deps`: what stands inside comes first.
unfoldable mutual
  unfolding strip_raw

  pub visit_item : Item → List SourceDependency
  visit_item (item_trait inner i) = visit_items inner
  visit_item (mod_inline name items) = visit_items items
  visit_item (mod_file name) = module_named (strip_raw name) ∷ []
  visit_item (nested items) = visit_items items

  pub visit_items : Items → List SourceDependency
  visit_items no_items = []
  visit_items (item i rest) = visit_item i ++ visit_items rest

unfoldable pub get_dependencies : Items → List SourceDependency
unfolding visit_items
get_dependencies contents = visit_items contents

-- `path.pop()`, then `path.push(…)`, on one path: the second try pops what the first pushed.
unfoldable pub find_module : Disk → FilePath → String → Fallible FilePath
unfolding pop join
find_module disk source_path module_name =
    let path₁ = join (pop source_path) (relative ((module_name <> ".rs") ∷ [])) in
    let path₂ = join (pop path₁) (relative (module_name ∷ "mod.rs" ∷ [])) in
    if exists disk path₁
    then ok path₁
    else if exists disk path₂
    then ok path₂
    else err (format_err ("Unable to locate source code for module '" <> module_name <> "'"))

unfoldable pub resolve_dependency : Disk → FilePath → SourceDependency → Fallible FilePath
unfolding find_module
resolve_dependency disk source_path (module_named module_name) =
    find_module disk source_path module_name
