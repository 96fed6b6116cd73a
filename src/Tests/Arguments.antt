-- ===== src/Tests/Arguments.antt =====
-- Instances for probe arguments: their values, their types and their lifetimes.
use tracers.Prelude.{ℕ, suc, arith, String, ◌<>◌, Option, some, [], ◌∷◌, map, length, ◌≡◌, refl}
use tracers.Core.ArgType.{ArgType, i8, u64, integer, str, option, reference, negsuc, native_type}
use tracers.Core.Conversion.{wrap, as_c_type}
use tracers.Core.Meaning.{Fits, as_c_type-Fits, meaning, read_c, read_c-as_c_type}
use tracers.Syn.Types
use tracers.Syn.Types.{SynType}
use tracers.Syn.Transform.{recurse_tree, walked}
use tracers.Syn.Relabel.{relabelling, relabel, recurse_tree-relabel, size}
use tracers.Syn.Visited.{visited}
use tracers.Syn.Erase.{erase}
use tracers.ArgTypes.{new, named, ref_to, option_of, from_syn_type}
use tracers.ArgTypes.Denotes.{Denotes, from_syn_type-Denotes}
use tracers.Spec.Partial.{pure}
use tracers.Spec.ProbeArg.{add_lifetimes_to_syn_type, lifetimes_of, lifetime_name}
use tracers.Spec.ProbeArg.Lifetimes.{names_from, add_lifetimes_to_syn_type_lem}
use tracers.Spec.ProbeArg.Distinct.{lifetime_name_inj, lifetime_name-clash}

as_c_type-Fits_example :
    Fits
      (native_type (option (integer i8)))
      (as_c_type (option (integer i8)) (wrap (option (integer i8)) (some (negsuc 127))))
as_c_type-Fits_example = as_c_type-Fits (option (integer i8)) (some (negsuc 127)) (omega arith)

-- A string with a NUL inside
read_c-as_c_type_example :
    read_c (as_c_type (option str) (wrap (option str) (some (97 ∷ 0 ∷ 98 ∷ []))))
    ≡ meaning (option str) (some (97 ∷ 0 ∷ 98 ∷ []))
read_c-as_c_type_example = read_c-as_c_type (option str) (some (97 ∷ 0 ∷ 98 ∷ [])) tt

from_syn_type-Denotes_example :
    (t : ArgType) × Denotes (ref_to (option_of (ref_to (named "u64")))) t
    × (new (option (reference (integer u64))) ≡ new t)
unfolding from_syn_type
from_syn_type-Denotes_example =
    from_syn_type-Denotes (ref_to (option_of (ref_to (named "u64")))) refl

-- `&Option<&String>`
abbrev nested_type : SynType
nested_type = ref_to (option_of (ref_to (named "String")))

nested_lifetimes :
    lifetimes_of (
      Types.reference
        (some "'probe_arg_1")
        ""
        (option_of (Types.reference (some "'probe_arg_2") "" (named "String"))))
    ≡ some ("'probe_arg_1" ∷ "'probe_arg_2" ∷ [])
unfolding lifetimes_of
nested_lifetimes = refl

add_lifetimes_to_syn_type_lem_example :
    (typ' : SynType) × (add_lifetimes_to_syn_type "probe" "arg" nested_type ≡ pure typ')
    × (erase typ' ≡ erase nested_type)
    × (visited typ' ≡ map some (names_from "probe" "arg" 0 (length (visited nested_type))))
    × (lifetimes_of typ' ≡ some (names_from "probe" "arg" 0 (length (visited nested_type))))
add_lifetimes_to_syn_type_lem_example = add_lifetimes_to_syn_type_lem "probe" "arg" nested_type

lifetime_name_inj_example : (◌≡◌ {A = String} "a_1" "a_1") × (◌≡◌ {A = ℕ} 2 2)
lifetime_name_inj_example = lifetime_name_inj "probe" "a_1" "a_1" 2 2 refl

-- The probes `a_b(c: &str)` and `a(b_c: &str)` of one provider
lifetime_name-clash_example :
    lifetime_name ("a" <> "_" <> "b") "c" 1 ≡ lifetime_name "a" ("b" <> "_" <> "c") 1
lifetime_name-clash_example = lifetime_name-clash "a" "b" "c" 1

recurse_tree-relabel_example :
    recurse_tree 20 (relabelling (λ (n : ℕ) (l : Option String). (l, suc n))) nested_type 0
    ≡ walked nested_type 2
unfolding size relabel
recurse_tree-relabel_example =
    recurse_tree-relabel (λ (n : ℕ) (l : Option String). (l, suc n)) 20 nested_type 0 (omega arith)
