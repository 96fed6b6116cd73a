-- ===== src/Std/FilePath/Equality.antt =====
-- `==` on paths, component by component.
use tracers.Prelude.{
  String, Bool, true, false, List, [], ◌∷◌, ◌≡◌, refl, ◌↔◌, ◌&&◌, arith, str_eq, str_eq_iff,
}
use tracers.Std.FilePath.{FilePath}

unfoldable pub bool_eq : Bool → Bool → Bool
bool_eq true b = b
bool_eq false true = false
bool_eq false false = true

names_eq : List String → List String → Bool
names_eq [] [] = true
names_eq [] (d ∷ ds) = false
names_eq (c ∷ cs) [] = false
names_eq (c ∷ cs) (d ∷ ds) = str_eq c d && names_eq cs ds

names_eq_iff : (cs ds : List String) → (names_eq cs ds ≡ true) ↔ (cs ≡ ds)
unfolding names_eq
names_eq_iff [] [] = ground arith
names_eq_iff [] (d ∷ ds) = ground arith
names_eq_iff (c ∷ cs) [] = ground arith
names_eq_iff (c ∷ cs) (d ∷ ds) = ground (arith, str_eq_iff c d, names_eq_iff cs ds)

unfoldable pub path_eq : FilePath → FilePath → Bool
unfolding names_eq
path_eq p q = bool_eq p.absolute q.absolute && names_eq p.components q.components

pub path_eq_iff : (p q : FilePath) → (path_eq p q ≡ true) ↔ (p ≡ q)
unfolding path_eq bool_eq
path_eq_iff p q = ground (arith, names_eq_iff p.components q.components)

pub path_eq_refl : (p : FilePath) → path_eq p p ≡ true
path_eq_refl p = (path_eq_iff p p).1 refl
