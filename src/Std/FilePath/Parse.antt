-- ===== src/Std/FilePath/Parse.antt =====
-- `PathBuf::from(text)`, which reads back what `display` prints.
use Prim.Native.Char.{code}
use text.Mathlib.TextLemmas.{nil-append, cons-append, append-nil as text-append-nil}
use tracers.Prelude.{
  String, ◌<>◌, Bool, true, false, List, [], ◌∷◌, ◌≡◌, refl, sym, ap, ◌∙◌, not, ◌&&◌, arith, ◌==◌,
  All, if◌then◌else◌, Bool-cases, inl, inr,
}
use tracers.Std.FilePath.{FilePath, display, show_components}

-- The segment before the first slash, and those behind it.
split_slashes : String → String × List String
split_slashes String.[] = (String.[], [])
split_slashes (String.◌∷◌ c s) =
    let (segment, rest) = split_slashes s in
    if code c == 47 then (String.[], segment ∷ rest) else (String.◌∷◌ c segment, rest)

-- Repeated and trailing slashes name no component.
non_empty : List String → List String
non_empty [] = []
non_empty (String.[] ∷ cs) = non_empty cs
non_empty (String.◌∷◌ c s ∷ cs) = String.◌∷◌ c s ∷ non_empty cs

starts_at_root : String → Bool
starts_at_root String.[] = false
starts_at_root (String.◌∷◌ c s) = code c == 47

unfoldable pub from : String → FilePath
unfolding split_slashes non_empty starts_at_root
from text =
    let (segment, rest) = split_slashes text in
    record { absolute = starts_at_root text; components = non_empty (segment ∷ rest) }

abbrev no_slash : String → Bool
no_slash String.[] = true
no_slash (String.◌∷◌ c s) = not (code c == 47) && no_slash s

-- The name of a component: not empty, and with no slash inside.
abbrev pub IsName : String → Type 0
IsName String.[] = ⊥
IsName (String.◌∷◌ c s) = no_slash (String.◌∷◌ c s) ≡ true

split_slashes-append :
    (s t : String)
    → no_slash s ≡ true
    → split_slashes (s <> t) ≡ (s <> (split_slashes t).0, (split_slashes t).1)
unfolding split_slashes
split_slashes-append String.[] t h = simp nil-append
split_slashes-append (String.◌∷◌ c s) t h =
    simp (cons-append, split_slashes-append s t (ground arith)) (ground arith)

non_empty-name : (s : String) (cs : List String) → IsName s → non_empty (s ∷ cs) ≡ s ∷ non_empty cs
unfolding non_empty
non_empty-name String.[] cs h = elim h [ ]
non_empty-name (String.◌∷◌ c s) cs h = refl

no_slash_of_name : (s : String) → IsName s → no_slash s ≡ true
no_slash_of_name String.[] h = refl
no_slash_of_name (String.◌∷◌ c s) h = h

abbrev segments : String → List String
segments text = (split_slashes text).0 ∷ (split_slashes text).1

split_slashes-name : (c : String) → IsName c → split_slashes c ≡ (c, [])
unfolding split_slashes
split_slashes-name c h =
    ap split_slashes (sym (text-append-nil c))
    ∙ split_slashes-append c "" (no_slash_of_name c h)
    ∙ ap (λ (s : String). (s, [])) (text-append-nil c)

slash-append : (t : String) → "/" <> t ≡ String.◌∷◌ "/" t
slash-append t = cons-append "/" "" t ∙ ap (λ (s : String). String.◌∷◌ "/" s) (nil-append t)

split_slashes-slash : (c t : String) → IsName c → split_slashes (c <> "/" <> t) ≡ (c, segments t)
unfolding split_slashes
split_slashes-slash c t h =
    split_slashes-append c ("/" <> t) (no_slash_of_name c h) ∙ simp (slash-append, text-append-nil)

segments-show_components :
    (cs : List String) → All IsName cs → non_empty (segments (show_components cs)) ≡ cs
unfolding show_components non_empty split_slashes
segments-show_components [] h = refl
segments-show_components (c ∷ []) h = rw (split_slashes-name c h.0) (non_empty-name c [] h.0)
segments-show_components (c ∷ d ∷ cs) h =
    rw (split_slashes-slash c (show_components (d ∷ cs)) h.0)
      (non_empty-name c _ h.0 ∙ ap (λ t. c ∷ t) (segments-show_components (d ∷ cs) h.1))

starts_at_root-show_components :
    (cs : List String) → All IsName cs → starts_at_root (show_components cs) ≡ false
unfolding starts_at_root show_components
starts_at_root-show_components [] h = refl
starts_at_root-show_components (String.[] ∷ cs) h = elim h.0 [ ]
starts_at_root-show_components (String.◌∷◌ c s ∷ []) h = ground (arith, h.0)
starts_at_root-show_components (String.◌∷◌ c s ∷ d ∷ cs) h = simp cons-append (ground (arith, h.0))

-- A path whose components are names is read back from the text that `display` prints.
pub from-display : (p : FilePath) → All IsName p.components → from (display p) ≡ p
unfolding from display
from-display p h = elim (Bool-cases p.absolute) [
  | inl abs ↦ rw abs (simp (slash-append, segments-show_components p.components h))
  | inr rel ↦ rw rel (
      simp (
        nil-append,
        segments-show_components p.components h,
        starts_at_root-show_components p.components h,
      ))
]

no_slash-split_slashes :
    (text : String)
    → (no_slash (split_slashes text).0 ≡ true)
      × All (λ (s : String). no_slash s ≡ true) (split_slashes text).1
unfolding split_slashes
no_slash-split_slashes String.[] = (refl, tt)
no_slash-split_slashes (String.◌∷◌ c s) =
    let (h, k) = no_slash-split_slashes s in
    elim (Bool-cases (code c == 47)) [
      | inl slash ↦ rw slash (refl, (h, k))
      | inr other ↦ rw (other, no_slash) (rw (other, h) refl, k)
    ]

non_empty-IsName :
    (cs : List String) → All (λ (s : String). no_slash s ≡ true) cs → All IsName (non_empty cs)
unfolding non_empty
non_empty-IsName [] h = tt
non_empty-IsName (String.[] ∷ cs) h = non_empty-IsName cs h.1
non_empty-IsName (String.◌∷◌ c s ∷ cs) h = (h.0, non_empty-IsName cs h.1)

-- What `PathBuf::from` reads has names for its components.
pub from-IsName : (text : String) → All IsName (from text).components
unfolding from
from-IsName text = non_empty-IsName (segments text) (no_slash-split_slashes text)
