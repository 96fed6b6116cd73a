-- ===== src/Deps/Resolution.antt =====
-- Where `find_module` of deps.rs looks for a module.
use tracers.Prelude.{
  String, ◌<>◌, Bool, true, false, List, [], ◌∷◌, ◌++◌, ok, err, ◌≡◌, ap, ◌∙◌, if◌then◌else◌,
}
use tracers.Std.FilePath.{FilePath, pop, join, init, init-append}
use tracers.Std.Disk.{Disk, exists}
use tracers.Error.{Failure, Fallible, format_err}
use tracers.Deps.{find_module, resolve_dependency, module_named}

-- Below the directory of the source file
abbrev beside : FilePath → List String → FilePath
beside source names = record source { components = init source.components ++ names }

abbrev first_of : Disk → String → FilePath → FilePath → Fallible FilePath
first_of disk name p q =
    if exists disk p
    then ok p
    else if exists disk q
    then ok q
    else err (format_err ("Unable to locate source code for module '" <> name <> "'"))

find_module-eq-first_of :
    (disk : Disk) (source : FilePath) (name : String)
    → find_module disk source name
      ≡ first_of disk name
          (beside source ((name <> ".rs") ∷ []))
          (beside source (name ∷ "mod.rs" ∷ []))
unfolding find_module join pop
find_module-eq-first_of disk source name =
    ap
      (λ dirs.
        first_of disk name (beside source ((name <> ".rs") ∷ []))
          (record source { components = dirs ++ name ∷ "mod.rs" ∷ [] }))
      (init-append (init source.components) (name <> ".rs"))

-- A module is looked for beside the file that names it, first as `name.rs` and then as
-- `name/mod.rs`: the first that exists is the answer, and without either there is an error.
find_module_lem :
    (disk : Disk) (source : FilePath) (name : String)
    → (exists disk (beside source ((name <> ".rs") ∷ [])) ≡ true
        → find_module disk source name ≡ ok (beside source ((name <> ".rs") ∷ [])))
      × (exists disk (beside source ((name <> ".rs") ∷ [])) ≡ false
          → exists disk (beside source (name ∷ "mod.rs" ∷ [])) ≡ true
          → find_module disk source name ≡ ok (beside source (name ∷ "mod.rs" ∷ [])))
      × (exists disk (beside source ((name <> ".rs") ∷ [])) ≡ false
          → exists disk (beside source (name ∷ "mod.rs" ∷ [])) ≡ false
          → (e : Failure) × (find_module disk source name ≡ err e))
find_module_lem disk source name =
    let found = find_module-eq-first_of disk source name in
    (
      λ here. found ∙ rw here,
      λ absent there. found ∙ rw (absent, there),
      λ absent missing. (
        format_err ("Unable to locate source code for module '" <> name <> "'"),
        found ∙ rw (absent, missing),
      ),
    )

-- A file's own name as a module in it resolves to the file itself, where it exists.
pub find_module_self :
    (disk : Disk) (absolute : Bool) (dirs : List String) (name : String)
    → exists disk (record { absolute = absolute; components = dirs ++ (name <> ".rs") ∷ [] }) ≡ true
    → resolve_dependency disk
        (record { absolute = absolute; components = dirs ++ (name <> ".rs") ∷ [] })
        (module_named name)
      ≡ ok (record { absolute = absolute; components = dirs ++ (name <> ".rs") ∷ [] })
unfolding resolve_dependency
find_module_self disk absolute dirs name h =
    let source : FilePath = record {
      absolute = absolute;
      components = dirs ++ (name <> ".rs") ∷ [];
    } in
    let own : beside source ((name <> ".rs") ∷ []) ≡ source =
      ap (λ ds. record { absolute = absolute; components = ds ++ (name <> ".rs") ∷ [] })
        (init-append dirs (name <> ".rs")) in
    (find_module_lem disk source name).0 (ap (exists disk) own ∙ h) ∙ ap ok own
