-- ===== src/Spec/ProbeArg/Lifetimes.antt =====
-- The lifetimes that `add_lifetimes_to_syn_type` gives to the references of an argument's type.
use tracers.Prelude.{
  ℕ, zero, suc, String, Option, none, some, List, [], ◌∷◌, ◌++◌, map, append-nil, append_assoc, ◌≡◌,
  refl, ap, sym, ◌∙◌, arith, length,
}
use tracers.Syn.Types
use tracers.Syn.Types.{SynType}
use tracers.Syn.Transform.{walked, Closure, transform_types, recurse_tree}
use tracers.Syn.Relabel.{relabelling, relabel, recurse_tree-relabel, size}
use tracers.Syn.Visited.{visited, thread, visited-relabel}
use tracers.Syn.Erase.{erase, erase-relabel}
use tracers.Spec.Partial.{pure}
use tracers.Spec.ProbeArg.{
  lifetime_name, annotate, finish, add_lifetimes_to_syn_type, collect, collected, lifetimes_of,
}

-- A closure that treats every type as `relabelling g` does is that.
module _ (probe arg : String) where
  abbrev next_name : ℕ → Option String → Option String × ℕ
  next_name count l = (some (lifetime_name probe arg (suc count)), suc count)

  annotate-eq :
      (t : SynType) (count : ℕ) → annotate probe arg t count ≡ relabelling next_name t count
  unfolding annotate relabelling
  annotate-eq (Types.reference l m t) count = refl
  annotate-eq _ count = refl

abbrev push_name : List String → Option String → Option String × List String
push_name names none = (none, names)
push_name names (some l) = (some l, names ++ l ∷ [])

collect-eq : (t : SynType) (names : List String) → collect t names ≡ relabelling push_name t names
unfolding collect relabelling
collect-eq (Types.reference none m t) names = refl
collect-eq (Types.reference (some l) m t) names = refl
collect-eq _ names = refl

transform_types-relabel :
    {S : Type 0} (f : Closure S) (g : S → Option String → Option String × S)
    → ((t : SynType) (s : S) → f t s ≡ relabelling g t s)
    → (t : SynType) (s : S)
    → transform_types (suc (size t)) f t s ≡ walked (relabel g t s).0 (relabel g t s).1
unfolding transform_types
transform_types-relabel f g same t s =
    ap (λ h. recurse_tree (suc (size t)) h t s) (λ i t' s'. same t' s' i)
    ∙ recurse_tree-relabel g (suc (size t)) t s (omega arith)

-- Collecting the lifetimes of a type never fails.
pub lifetimes_of_total : (typ : SynType) → (names : List String) × (lifetimes_of typ ≡ some names)
unfolding lifetimes_of
lifetimes_of_total typ = (
  (relabel push_name typ []).1,
  ap collected (transform_types-relabel collect push_name collect-eq typ []),
)

-- `count` names from `start + 1` on
unfoldable pub names_from : String → String → ℕ → ℕ → List String
names_from probe arg start zero = []
names_from probe arg start (suc count) =
    lifetime_name probe arg (suc start) ∷ names_from probe arg (suc start) count

thread-next_name :
    (probe arg : String) (ls : List (Option String)) (start : ℕ)
    → (thread (next_name probe arg) ls start).0 ≡ map some (names_from probe arg start (length ls))
unfolding thread names_from
thread-next_name probe arg [] start = refl
thread-next_name probe arg (l ∷ ls) start =
    ap (λ t. some (lifetime_name probe arg (suc start)) ∷ t)
      (thread-next_name probe arg ls (suc start))

thread-push_name :
    (names acc : List String) → (thread push_name (map some names) acc).1 ≡ acc ++ names
unfolding thread
thread-push_name [] acc = sym (append-nil acc)
thread-push_name (l ∷ names) acc =
    thread-push_name names (acc ++ l ∷ []) ∙ append_assoc acc (l ∷ []) names

-- Annotating succeeds on every type and changes nothing but lifetimes; the references, in the order
-- of the traversal, get the names 1, 2, … of the argument, and `lifetimes` finds exactly these.
pub add_lifetimes_to_syn_type_lem :
    (probe arg : String) (typ : SynType)
    → (typ' : SynType) × (add_lifetimes_to_syn_type probe arg typ ≡ pure typ')
      × (erase typ' ≡ erase typ)
      × (visited typ' ≡ map some (names_from probe arg 0 (length (visited typ))))
      × (lifetimes_of typ' ≡ some (names_from probe arg 0 (length (visited typ))))
unfolding add_lifetimes_to_syn_type lifetimes_of
add_lifetimes_to_syn_type_lem probe arg typ =
    let g = next_name probe arg in
    let typ' = (relabel g typ 0).0 in
    let seen : visited typ' ≡ map some (names_from probe arg 0 (length (visited typ))) =
      ap (λ (r : List (Option String) × ℕ). r.0) (visited-relabel g typ 0)
      ∙ thread-next_name probe arg (visited typ) 0 in
    (
      typ',
      ap finish (transform_types-relabel (annotate probe arg) g (annotate-eq probe arg) typ 0),
      erase-relabel g typ 0,
      seen,
      ap collected (transform_types-relabel collect push_name collect-eq typ' [])
          ∙ ap some (
              ap (λ (r : List (Option String) × List String). r.1)
                (visited-relabel push_name typ' [])
              ∙ ap (λ ls. (thread push_name ls []).1) seen
              ∙ thread-push_name (names_from probe arg 0 (length (visited typ))) []),
    )
