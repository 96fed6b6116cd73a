-- ===== src/Spec/Provider.antt =====
-- `ProviderSpecification` and `find_providers` of tracers-codegen/src/spec/provider.rs. The hash of a
-- trait (`twox_hash`), snake case (`heck`), the reading of an attribute's list of values (`darling`)
-- and the printing of tokens are parameters.
pub mod Found
pub mod Accepted
use tracers.Prelude.{
  String, ◌<>◌, Bool, true, false, not, ◌||◌, Option, none, some, List, [], ◌∷◌, ◌++◌, Result, ok,
  err, map_err, str_eq, if◌then◌else◌,
}
use tracers.Prelude.Radix.{hex}
use tracers.Std.FilePath.{init, last}
use tracers.Hashing.{HashCode}
use tracers.Error.{Span, SynError, TracersError, TracersResult}
use tracers.Error.Raise.{invalid_provider, syn_error, syn_like_error, darling_error}
use tracers.Spec.Partial.{Partial, pure, fail, ◌>>=◌}
use tracers.Spec.ProbeArg.{Printer}
use tracers.Spec.Probe.{TraitItemMethod, ProbeSpecification, from_method, is_empty}

-- `syn::TraitItem`
pub data TraitItem : Type 0 where
  method : TraitItemMethod → TraitItem
  other : Span → TraitItem

-- `syn::Meta`; a list holds the tokens between the parentheses.
pub data Meta : Type 0 where
  path : Meta
  name_value : Meta
  list : String → Meta

-- `syn::Attribute`: the identifiers of its path, and what `parse_meta` reads.
pub record Attribute : Type 0 where
  pub segments : List String
  pub parsed_meta : Result SynError Meta
  pub span : Span

pub record ItemTrait : Type 0 where
  pub attrs : List Attribute
  pub ident : String
  pub vis : String
  pub type_params : List String
  pub lifetimes : List String
  pub items : List TraitItem
  pub span : Span

pub record TracerAttributeArgs : Type 0 where
  pub provider_name : Option String

pub record ProviderSpecification : Type 0 where
  pub name : String
  pub hash : HashCode
  pub item_trait : ItemTrait
  pub args : TracerAttributeArgs
  pub probes : List ProbeSpecification

pub record Crates : Type 0 where
  pub printer : Printer
  pub hash : ItemTrait → HashCode
  pub to_snake_case : String → String
  pub from_list : String → Result String TracerAttributeArgs

module _ (crates : Crates) where
  from_items : String → List TraitItem → Partial TracersError (List ProbeSpecification)
  unfolding from_method invalid_provider
  from_items vis [] = pure []
  from_items vis (method m ∷ rest) = do
    spec ← from_method crates.printer vis m
    specs ← from_items vis rest
    pure (spec ∷ specs)
  from_items vis (other span ∷ rest) =
      fail
        (invalid_provider "Probe traits must consist entirely of methods, no other contents" span)

  unfoldable pub find_probes : ItemTrait → Partial TracersError (List ProbeSpecification)
  unfolding from_items invalid_provider
  find_probes item =
      if not (is_empty item.type_params) || not (is_empty item.lifetimes)
      then fail
          (invalid_provider "Probe traits must not take any lifetime or type parameters" item.span)
      else from_items item.vis item.items

  unfoldable pub provider_name_from_trait : String → String → String
  provider_name_from_trait crate_name ident = crate_name <> "_" <> crates.to_snake_case ident

  provider_name : String → TracerAttributeArgs → String → String
  unfolding provider_name_from_trait
  provider_name crate_name args ident = elim args.provider_name [
    | some name ↦ name
    | none ↦ provider_name_from_trait crate_name ident
  ]

  unfoldable pub new :
      String → TracerAttributeArgs → ItemTrait → Partial TracersError ProviderSpecification
  unfolding find_probes provider_name
  new crate_name args item_trait = do
    probes ← find_probes item_trait
    pure (record {
      name = provider_name crate_name args item_trait.ident;
      hash = crates.hash item_trait;
      item_trait = item_trait;
      args = args;
      probes = probes;
    })

  -- The macro's way in: `parse2` has read the tokens, or failed.
  unfoldable pub from_token_stream :
      String
      → TracerAttributeArgs
      → Result SynError ItemTrait
      → Partial TracersError ProviderSpecification
  unfolding new syn_error
  from_token_stream crate_name args (ok item_trait) = new crate_name args item_trait
  from_token_stream crate_name args (err e) = fail (syn_error "Expected a trait" e)

  -- `TracerAttributeArgs::from_attribute`, which `TracerAttribute::from_attribute` wraps
  unfoldable pub from_attribute : Attribute → TracersResult TracerAttributeArgs
  unfolding syn_error syn_like_error darling_error
  from_attribute attr = elim attr.parsed_meta [
    | err e ↦ err (syn_error "Error parsing attribute metadata" e)
    | ok meta ↦ elim meta [
      | path ↦ ok (record { provider_name = none })
      | name_value ↦ err (syn_like_error "Expected name/value pairs in ()" attr.span)
      | list tokens ↦ map_err darling_error (crates.from_list tokens)
    ]
  ]

unfoldable pub name_with_hash : ProviderSpecification → String
unfolding hex
name_with_hash spec = spec.name <> "_" <> hex spec.hash

unfoldable pub separate_probes :
    ProviderSpecification → ProviderSpecification × List ProbeSpecification
separate_probes spec = (record spec { probes = [] }, spec.probes)

unfoldable pub is_tracer_attribute : Attribute → Bool
is_tracer_attribute attr = elim (last attr.segments) [
  | some ident ↦ str_eq ident "tracer"
  | none ↦ false
]

-- `into_iter().partition(is_tracer_attribute)`
unfoldable pub partition : List Attribute → List Attribute × List Attribute
unfolding is_tracer_attribute
partition [] = ([], [])
partition (a ∷ rest) =
    let split = partition rest in
    if is_tracer_attribute a then (a ∷ split.0, split.1) else (split.0, a ∷ split.1)

-- A source file as the visitors here and of deps.rs see it: traits, modules, and what else may hold
-- items, in source order.
mutual
  pub data Item : Type 0 where
    -- the items within its default methods, and the trait
    item_trait : Items → ItemTrait → Item
    -- `mod name { … }` and `mod name;`
    mod_inline : String → Items → Item
    mod_file : String → Item
    nested : Items → Item

  pub data Items : Type 0 where
    no_items : Items
    item : Item → Items → Items

module _ (crates : Crates) (crate_name : String) where
  -- The last of the tracer attributes is read. `none` is the panic of `expect`.
  visit_split :
      ItemTrait
      → List Attribute × List Attribute
      → List ProviderSpecification
      → Option (List ProviderSpecification)
  unfolding from_attribute new
  visit_split i split providers = elim (last split.0) [
    | none ↦ some providers
    | some tracer_attr ↦ elim (from_attribute crates tracer_attr) [
      | err e ↦ none
      | ok args ↦ elim (new crates crate_name args (record i { attrs = split.1 })) [
        | none ↦ none
        | some made ↦ elim made [
          | ok provider ↦ some (providers ++ provider ∷ [])
          | err e ↦ some providers
        ]
      ]
    ]
  ]

  -- The providers after a trait has been visited.
  unfoldable pub visit_item_trait :
      ItemTrait → List ProviderSpecification → Option (List ProviderSpecification)
  unfolding partition visit_split
  visit_item_trait i providers = visit_split i (partition i.attrs) providers

  and_then :
      Option (List ProviderSpecification)
      → (List ProviderSpecification → Option (List ProviderSpecification))
      → Option (List ProviderSpecification)
  and_then none f = none
  and_then (some providers) f = f providers

  unfoldable mutual
    unfolding visit_item_trait and_then

    pub visit_item : Item → List ProviderSpecification → Option (List ProviderSpecification)
    visit_item (item_trait inner i) providers =
        and_then (visit_items inner providers) (visit_item_trait i)
    visit_item (mod_inline name items) providers = visit_items items providers
    visit_item (mod_file name) providers = some providers
    visit_item (nested items) providers = visit_items items providers

    pub visit_items : Items → List ProviderSpecification → Option (List ProviderSpecification)
    visit_items no_items providers = some providers
    visit_items (item i rest) providers = and_then (visit_item i providers) (visit_items rest)

  unfoldable pub find_providers : Items → Option (List ProviderSpecification)
  unfolding visit_items
  find_providers ast = visit_items ast []
