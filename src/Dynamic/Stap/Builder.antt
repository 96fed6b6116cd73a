-- ===== src/Dynamic/Stap/Builder.antt =====
-- What a builder holds after `add_probe` (tracers-dyn-stap/src/provider.rs).
use tracers.Prelude.{
  String, false, List, [], ◌∷◌, ◌++◌, ok, ◌≡◌, ◌≢◌, sym, All, All-append, str_eq, str_eq_iff, any,
  Bool-cases, inl, inr,
}
use tracers.Core.ArgType.{ArgType}
use tracers.Dynamic.{ProbeDefinition, new}
use tracers.Dynamic.Stap.{StapProviderBuilder, add_probe}

-- No two probes share a name.
abbrev pub AreDistinct : List ProbeDefinition → Type 0
AreDistinct [] = Unit
AreDistinct (p ∷ ps) = All (λ q. p.name ≢ q.name) ps × AreDistinct ps

pub record IsValid (builder : StapProviderBuilder) : Type 0 where
  pub named : All (λ (p : ProbeDefinition). p.name ≢ "") builder.probes
  pub distinct : AreDistinct builder.probes

All-any-false :
    (name : String) (ps : List ProbeDefinition)
    → any (λ p. str_eq p.name name) ps ≡ false
    → All (λ (p : ProbeDefinition). p.name ≢ name) ps
All-any-false name [] h = tt
All-any-false name (p ∷ ps) h = elim (Bool-cases (str_eq p.name name)) [
  | inl same ↦ absurd (cc (rw same at h))
  | inr other ↦ (
    λ (e : p.name ≡ name). cc ((str_eq_iff p.name name).1 e),
    All-any-false name ps (rw other at h),
  )
]

AreDistinct-append_one :
    (ps : List ProbeDefinition) (q : ProbeDefinition)
    → AreDistinct ps
    → All (λ (p : ProbeDefinition). p.name ≢ q.name) ps
    → AreDistinct (ps ++ q ∷ [])
AreDistinct-append_one [] q h new = (tt, tt)
AreDistinct-append_one (p ∷ ps) q h new = (
  All-append (λ (r : ProbeDefinition). p.name ≢ r.name) ps h.0 (q ∷ []) (new.0, tt),
  AreDistinct-append_one ps q h.1 new.1,
)

-- A probe that is added to a builder comes last; names stay non-empty, and no two become equal.
pub add_probe-IsValid :
    (builder : StapProviderBuilder) (name : String) (args : List ArgType)
    {builder' : StapProviderBuilder}
    → IsValid builder
    → add_probe builder name args ≡ ok builder'
    → IsValid builder' × (builder'.probes ≡ builder.probes ++ new name args ∷ [])
unfolding add_probe new
add_probe-IsValid builder name args {builder'} valid added = elim (Bool-cases (str_eq name "")) [
  | inl empty ↦ absurd (cc (rw empty at added))
  | inr named ↦ elim (Bool-cases (any (λ p. str_eq p.name name) builder.probes)) [
    | inl old ↦ absurd (cc (rw (named, old) at added))
    | inr fresh ↦
        let same : builder.probes ++ new name args ∷ [] ≡ builder'.probes =
          cc (rw (named, fresh) at added) in
        (
          record {
            named = rw (← same) (
                All-append (λ (p : ProbeDefinition). p.name ≢ "") builder.probes valid.named
                  (new name args ∷ []) (λ (e : name ≡ ""). cc ((str_eq_iff name "").1 e), tt));
            distinct = rw (← same) (
                AreDistinct-append_one builder.probes (new name args) valid.distinct
                  (All-any-false name builder.probes fresh));
          },
          sym same,
        )
  ]
]
