-- ===== src/Std/FilePath.antt =====
-- `std::path::{Path, PathBuf}` on Unix. A path is its components from the root down; `.`, `..` and
-- repeated slashes are not normalised here, as the program compares no such paths.
pub mod Parse
pub mod Equality
use Prim.Native.Char.{code}
use tracers.Prelude.{
  String, ◌<>◌, Bool, true, false, Option, none, some, List, [], ◌∷◌, ◌++◌, ◌≡◌, refl, ap, ◌∙◌,
  arith, append-nil, append_assoc, ◌==◌, ltb, if◌then◌else◌, ◌≢◌,
}

pub record FilePath : Type 0 where
  pub absolute : Bool
  pub components : List String

-- `p.join(q)`, `p.push(q)`: an absolute `q` replaces `p`.
unfoldable pub join : FilePath → FilePath → FilePath
join p q = if q.absolute then q else record p { components = p.components ++ q.components }

abbrev pub relative : List String → FilePath
relative cs = record { absolute = false; components = cs }

module _ {ℓ} {A : Type ℓ} where
  abbrev pub init : List A → List A
  init [] = []
  init (x ∷ []) = []
  init (x ∷ y ∷ xs) = x ∷ init (y ∷ xs)

  abbrev pub last : List A → Option A
  last [] = none
  last (x ∷ []) = some x
  last (x ∷ y ∷ xs) = last (y ∷ xs)

  pub init-append : (xs : List A) (x : A) → init (xs ++ x ∷ []) ≡ xs
  init-append [] x = refl
  init-append (y ∷ []) x = refl
  init-append (y ∷ z ∷ xs) x = ap (λ t. y ∷ t) (init-append (z ∷ xs) x)

  pub last-append : (xs : List A) (x : A) → last (xs ++ x ∷ []) ≡ some x
  last-append [] x = refl
  last-append (y ∷ []) x = refl
  last-append (y ∷ z ∷ xs) x = last-append (z ∷ xs) x

-- `p.pop()`, and `p.parent()` where there is one.
unfoldable pub pop : FilePath → FilePath
pop p = record p { components = init p.components }

unfoldable pub parent : FilePath → Option FilePath
unfolding pop
parent p = elim (last p.components) [ none ↦ none | some _ ↦ some (pop p) ]

last-cons {ℓ} : {A : Type ℓ} (x : A) (xs : List A) → (l : A) × (last (x ∷ xs) ≡ some l)
last-cons x [] = (x, refl)
last-cons x (y ∷ xs) = last-cons y xs

pub parent-cons :
    (abs : Bool) (c : String) (cs : List String)
    → parent (record { absolute = abs; components = c ∷ cs })
      ≡ some (record { absolute = abs; components = init (c ∷ cs) })
unfolding parent
parent-cons abs c cs = let (l, h) = last-cons c cs in rw (h, parent)

unfoldable pub file_name : FilePath → Option String
file_name p = last p.components

-- `p.set_file_name(name)` where `p` has a file name: pop, then push.
unfoldable pub set_file_name : FilePath → String → FilePath
unfolding pop
set_file_name p name = join (pop p) (relative (name ∷ []))

-- The text before and behind the last dot.
split_dot : String → Option (String × String)
split_dot String.[] = none
split_dot (String.◌∷◌ c s) = elim (split_dot s) [
  | some (before, behind) ↦ some (String.◌∷◌ c before, behind)
  | none ↦ if code c == 46 then some (String.[], s) else none
]

-- A name whose only dot stands in front has no extension.
stem_and_extension : String → String × Option String
unfolding split_dot
stem_and_extension name = elim (split_dot name) [
  | none ↦ (name, none)
  | some (String.[], behind) ↦ (name, none)
  | some (String.◌∷◌ c before, behind) ↦ (String.◌∷◌ c before, some behind)
]

unfoldable pub file_stem : FilePath → Option String
unfolding file_name stem_and_extension
file_stem p = elim (file_name p) [ none ↦ none | some name ↦ some (stem_and_extension name).0 ]

unfoldable pub extension : FilePath → Option String
unfolding file_name stem_and_extension
extension p = elim (file_name p) [ none ↦ none | some name ↦ (stem_and_extension name).1 ]

-- Path text, as `display` prints it.
unfoldable pub show_components : List String → String
show_components [] = ""
show_components (c ∷ []) = c
show_components (c ∷ d ∷ cs) = c <> "/" <> show_components (d ∷ cs)

unfoldable pub display : FilePath → String
unfolding show_components
display p = (if p.absolute then "/" else "") <> show_components p.components

example_path : FilePath
example_path = record { absolute = true; components = "foo" ∷ "lib.tar.gz" ∷ [] }

stem_example :
    (file_stem example_path ≡ some "lib.tar")
    × (extension example_path ≡ some "gz")
    × (display example_path ≡ "/foo/lib.tar.gz")
unfolding file_stem extension display example_path
stem_example = (refl, refl, refl)
