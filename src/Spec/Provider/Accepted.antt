-- ===== src/Spec/Provider/Accepted.antt =====
-- Which traits are providers, and the specification of each (spec/provider.rs).
use tracers.Prelude.{
  String, ◌<>◌, not, ◌||◌, none, some, List, [], ◌∷◌, ◌≡◌, refl, ◌⊎◌, inl, inr, arith, Bool-cases,
}
use tracers.Error.{TracersError}
use tracers.Error.Raise.{invalid_provider}
use tracers.Spec.Partial.{pure, fail}
use tracers.Spec.Probe.{ProbeSpecification, is_empty}
use tracers.Spec.Probe.Accepted.{
  IsProbeMethod, AreArgsOf, from_method-accepts, from_method-cases, is_empty-true,
}
use tracers.Spec.Provider.{
  TraitItem, method, other, ItemTrait, TracerAttributeArgs, ProviderSpecification, Crates,
  from_items, find_probes, new, provider_name, provider_name_from_trait,
}

-- Nothing but probe methods.
abbrev pub AreProbeMethods : List TraitItem → Type 0
AreProbeMethods [] = Unit
AreProbeMethods (method m ∷ rest) = IsProbeMethod m × AreProbeMethods rest
AreProbeMethods (other _ ∷ rest) = ⊥

abbrev pub IsProviderTrait : ItemTrait → Type 0
IsProviderTrait i = (i.type_params ≡ []) × (i.lifetimes ≡ []) × AreProbeMethods i.items

-- One probe for each method, in their order, with its name and arguments.
abbrev pub AreProbesOf : List TraitItem → List ProbeSpecification → Type 0
AreProbesOf [] [] = Unit
AreProbesOf (method m ∷ rest) (spec ∷ specs) =
    ((spec.name ≡ m.ident) × AreArgsOf m.ident 0 m.inputs spec.args) × AreProbesOf rest specs
AreProbesOf _ _ = ⊥

module _ (crates : Crates) where
  from_items-accepts :
      (vis : String) (items : List TraitItem)
      → AreProbeMethods items
      → (specs : List ProbeSpecification) × (from_items crates vis items ≡ pure specs)
        × AreProbesOf items specs
  unfolding from_items
  from_items-accepts vis [] h = ([], refl, tt)
  from_items-accepts vis (method m ∷ rest) h =
      let (spec, made, name, _, _, _, args) = from_method-accepts crates.printer vis m h.0 in
      let (specs, made', all) = from_items-accepts vis rest h.1 in
      (spec ∷ specs, rw (made, made'), ((name, args), all))
  from_items-accepts vis (other span ∷ rest) h = elim h [ ]

  from_items-cases :
      (vis : String) (items : List TraitItem)
      → AreProbeMethods items
        ⊎ ((e : TracersError) × (from_items crates vis items ≡ fail e) × (¬ AreProbeMethods items))
  unfolding from_items
  from_items-cases vis [] = inl tt
  from_items-cases vis (other span ∷ rest) = inr (_, refl, λ h. h)
  from_items-cases vis (method m ∷ rest) = elim (from_method-cases crates.printer vis m) [
    | inr (e, refused, not_one) ↦ inr (e, rw refused, λ h. not_one h.0)
    | inl one ↦ elim (from_items-cases vis rest) [
      | inl all ↦ inl (one, all)
      | inr (e, refused, not_all) ↦
          let (spec, made, _, _, _, _, _) = from_method-accepts crates.printer vis m one in
          inr (e, rw (made, refused), λ h. not_all h.1)
    ]
  ]

  module _ (crate_name : String) (args : TracerAttributeArgs) (i : ItemTrait) where
    -- A trait without parameters whose items are all probe methods is a provider: named as its
    -- attribute says, or after the crate and the trait in snake case; with the trait's hash; and with
    -- one probe for each method, in their order.
    pub new-accepts :
        IsProviderTrait i
        → (spec : ProviderSpecification) × (new crates crate_name args i ≡ pure spec)
          × (args.provider_name ≡ none
              → spec.name ≡ crate_name <> "_" <> crates.to_snake_case i.ident)
          × ((name : String) → args.provider_name ≡ some name → spec.name ≡ name)
          × (spec.hash ≡ crates.hash i)
          × (spec.item_trait ≡ i)
          × AreProbesOf i.items spec.probes
    unfolding new find_probes provider_name provider_name_from_trait
    new-accepts (no_params, no_lifetimes, methods) =
        let (probes, made, all) = from_items-accepts i.vis i.items methods in
        (
          record {
            name = provider_name crates crate_name args i.ident;
            hash = crates.hash i;
            item_trait = i;
            args = args;
            probes = probes;
          },
          rw (no_params, no_lifetimes, made),
          λ unnamed. rw unnamed,
          λ name named. rw named,
          refl,
          refl,
          all,
        )

    -- Any other trait is refused with an error.
    pub new-refuses :
        (¬ IsProviderTrait i) → (e : TracersError) × (new crates crate_name args i ≡ fail e)
    unfolding new find_probes
    new-refuses h = elim (Bool-cases (not (is_empty i.type_params) || not (is_empty i.lifetimes))) [
      | inl generic ↦ (
        invalid_provider "Probe traits must not take any lifetime or type parameters" i.span,
        rw generic,
      )
      | inr plain ↦ elim (from_items-cases i.vis i.items) [
        | inr (e, refused, _) ↦ (e, rw plain (rw refused))
        | inl all ↦ absurd (
            h (
              is_empty-true i.type_params (ground arith),
              is_empty-true i.lifetimes (ground arith),
              all,
            ))
      ]
    ]
