-- ===== src/Spec/Provider/Found.antt =====
-- What `find_providers` of spec/provider.rs finds in a file, and how the provider that the proc
-- macro makes of the same trait compares with it.
use text.Mathlib.TextLemmas.{append_cancel_right}
use tracers.Prelude.{
  String, ◌<>◌, true, false, Option, none, some, List, [], ◌∷◌, ◌++◌, ok, err, ◌≡◌, ◌≢◌, refl, ap,
  ◌∙◌, ◌↔◌, ◌⊎◌, inl, inr, Option-cases, All,
}
use tracers.Std.FilePath.{last}
use tracers.Error.{TracersError}
use tracers.Hashing.{HashCode}
use tracers.Spec.Partial.{Partial, pure, ◌>>=◌}
use tracers.Spec.Provider.{
  Attribute, ItemTrait, TracerAttributeArgs, ProviderSpecification, Crates, from_attribute,
  from_token_stream, is_tracer_attribute, partition, Item, item_trait, nested, mod_inline, mod_file,
  Items, no_items, item, visit_item_trait, visit_split, visit_item, visit_items, find_providers,
  and_then, find_probes, new, provider_name, provider_name_from_trait,
}

-- A trait that stands somewhere in an item, or in a list of items.
mutual
  pub data IsIn : ItemTrait → Item → Type 0 where
    here : (inner : Items) (i : ItemTrait) → IsIn i (item_trait inner i)
    inside :
        (i : ItemTrait) (inner : Items) (j : ItemTrait)
        → AreWith i inner
        → IsIn i (item_trait inner j)
    below : (i : ItemTrait) (items : Items) → AreWith i items → IsIn i (nested items)
    in_module :
        (i : ItemTrait) (name : String) (items : Items)
        → AreWith i items
        → IsIn i (mod_inline name items)

  pub data AreWith : ItemTrait → Items → Type 0 where
    first : (i : ItemTrait) (x : Item) (rest : Items) → IsIn i x → AreWith i (item x rest)
    later : (i : ItemTrait) (x : Item) (rest : Items) → AreWith i rest → AreWith i (item x rest)

abbrev AreOther : List Attribute → Type 0
AreOther = All (λ a. is_tracer_attribute a ≡ false)

partition-other : (attrs : List Attribute) → AreOther attrs → partition attrs ≡ ([], attrs)
unfolding partition
partition-other [] h = refl
partition-other (a ∷ rest) h = rw (partition-other rest h.1, h.0)

-- One tracer attribute among others is split off, and the others keep their order.
partition-one :
    (front back : List Attribute) (a : Attribute)
    → AreOther front
    → AreOther back
    → is_tracer_attribute a ≡ true
    → partition (front ++ a ∷ back) ≡ (a ∷ [], front ++ back)
unfolding partition
partition-one [] back a hf hb ha = rw (partition-other back hb, ha)
partition-one (f ∷ front) back a hf hb ha = rw (partition-one front back a hf.1 hb ha, hf.0)

bind-eq-pure :
    {E A B : Type 0} (m : Partial E A) (f : A → B) {b : B}
    → (m >>= λ a. pure (f a)) ≡ pure b
    → (a : A) × (m ≡ pure a) × (f a ≡ b)
bind-eq-pure none f h = absurd (cc)
bind-eq-pure (some (err e)) f h = absurd (cc)
bind-eq-pure (some (ok a)) f h = (a, refl, cc)

module _ (crates : Crates) where
  -- A default name begins with the name of the crate, and a given one does not depend on it.
  provider_name-eq_iff :
      (c d ident : String) (args read : TracerAttributeArgs)
      → read.provider_name ≡ args.provider_name
      → (provider_name crates c args ident ≡ provider_name crates d read ident)
        ↔ ((args.provider_name ≢ none) ⊎ (c ≡ d))
  unfolding provider_name provider_name_from_trait
  provider_name-eq_iff c d ident args read same = elim (Option-cases args.provider_name) [
    | inl unnamed ↦ (
      λ equal. inr (
          append_cancel_right c d ("_" <> crates.to_snake_case ident)
            (rw (same, unnamed) at equal)),
      λ either. elim either [
        | inl named ↦ absurd (named unnamed)
        | inr one ↦ rw (same, unnamed, one)
      ],
    )
    | inr (name, named) ↦ (λ equal. inl (λ unnamed. cc), λ either. rw (same, named))
  ]

  -- The build script and the proc macro agree on a provider but for its default name: where the macro,
  -- which the compiler gives the trait without its `#[tracer]` attribute, makes a specification of it
  -- under the name of its crate, a file's scan under any crate name adds one of the same trait with the
  -- same hash and probes, wherever the attribute stands among others, provided that the two readings of
  -- the attribute give the same name, if any. The two providers have the same name exactly when the
  -- attribute gives one or the two crate names are the same.
  pub visit_item_trait-eq-macro :
      (scan_crate macro_crate : String) (i : ItemTrait) (front back : List Attribute)
      (a : Attribute) (args read : TracerAttributeArgs) (provider : ProviderSpecification)
      (providers : List ProviderSpecification)
      → i.attrs ≡ front ++ a ∷ back
      → AreOther front
      → AreOther back
      → is_tracer_attribute a ≡ true
      → from_attribute crates a ≡ ok args
      → read.provider_name ≡ args.provider_name
      → from_token_stream crates macro_crate read (ok (record i { attrs = front ++ back }))
        ≡ pure provider
      → (found : ProviderSpecification) × (visit_item_trait crates scan_crate i providers
          ≡ some (providers ++ found ∷ []))
        × (found.item_trait ≡ provider.item_trait)
        × (◌≡◌ {A = HashCode} found.hash provider.hash)
        × (found.probes ≡ provider.probes)
        × ((found.name ≡ provider.name)
            ↔ ((args.provider_name ≢ none) ⊎ (scan_crate ≡ macro_crate)))
  unfolding visit_item_trait visit_split from_token_stream new
  visit_item_trait-eq-macro scan_crate macro_crate i front back a args read provider providers attrs
        hf hb ha parsed same made =
      let t : ItemTrait = record i { attrs = front ++ back } in
      let (probes, are_probes, is_made) = bind-eq-pure (find_probes crates t) _ made in
      let found : ProviderSpecification = record {
        name = provider_name crates scan_crate args i.ident;
        hash = crates.hash t;
        item_trait = t;
        args = args;
        probes = probes;
      } in
      (
        found,
        ap (λ split. visit_split crates scan_crate i split providers)
              (ap partition attrs ∙ partition-one front back a hf hb ha)
            ∙ rw (parsed, visit_split) (rw are_probes),
        ap (λ (p : ProviderSpecification). p.item_trait) is_made,
        ap (λ (p : ProviderSpecification). p.hash) is_made,
        ap (λ (p : ProviderSpecification). p.probes) is_made,
        rw (← ap (λ (p : ProviderSpecification). p.name) is_made)
            (provider_name-eq_iff scan_crate macro_crate i.ident args read same),
      )

module _ (crates : Crates) (crate_name : String) where
  and_then-none :
      (m : Option (List ProviderSpecification))
      (f : List ProviderSpecification → Option (List ProviderSpecification))
      → ((ps : List ProviderSpecification) → f ps ≡ none)
      → and_then crates crate_name m f ≡ none
  unfolding and_then
  and_then-none none f h = refl
  and_then-none (some ps) f h = h ps

  mutual
    unfolding visit_items and_then visit_item_trait visit_split

    visit_item-panics :
        (i : ItemTrait) (x : Item) (a : Attribute) (e : TracersError)
        → IsIn i x
        → last (partition i.attrs).0 ≡ some a
        → from_attribute crates a ≡ err e
        → (ps : List ProviderSpecification) → visit_item crates crate_name x ps ≡ none
    visit_item-panics i (item_trait inner j) a e (here _ _) found bad ps =
        and_then-none (visit_items crates crate_name inner ps) _
          (λ qs. rw (found, visit_split) (rw bad))
    visit_item-panics i (item_trait inner j) a e (inside _ _ _ h) found bad ps =
        rw (visit_items-panics i inner a e h found bad ps)
    visit_item-panics i (mod_inline name items) a e (in_module _ _ _ h) found bad ps =
        visit_items-panics i items a e h found bad ps
    visit_item-panics i (mod_file name) a e h found bad ps = elim h [ ]
    visit_item-panics i (nested items) a e (below _ _ h) found bad ps =
        visit_items-panics i items a e h found bad ps

    visit_items-panics :
        (i : ItemTrait) (xs : Items) (a : Attribute) (e : TracersError)
        → AreWith i xs
        → last (partition i.attrs).0 ≡ some a
        → from_attribute crates a ≡ err e
        → (ps : List ProviderSpecification) → visit_items crates crate_name xs ps ≡ none
    visit_items-panics i no_items a e h found bad ps = elim h [ ]
    visit_items-panics i (item x rest) a e (first _ _ _ h) found bad ps =
        rw (visit_item-panics i x a e h found bad ps)
    visit_items-panics i (item x rest) a e (later _ _ _ h) found bad ps =
        and_then-none (visit_item crates crate_name x ps) _
          (λ qs. visit_items-panics i rest a e h found bad qs)

  -- A trait anywhere in a file whose last `tracer` attribute cannot be read makes the scan of the
  -- file panic; the trait is not passed over.
  pub find_providers-panics :
      (ast : Items) (i : ItemTrait) (a : Attribute) (e : TracersError)
      → AreWith i ast
      → last (partition i.attrs).0 ≡ some a
      → from_attribute crates a ≡ err e
      → find_providers crates crate_name ast ≡ none
  unfolding find_providers
  find_providers-panics ast i a e h found bad = visit_items-panics i ast a e h found bad []
