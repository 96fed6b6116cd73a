-- ===== src/Syn/Equality.antt =====
-- `==` of `syn` on types: the same tree, wherever in the source it stood.
use tracers.Prelude.{
  String, Bool, true, false, Option, none, some, ◌&&◌, ◌≡◌, refl, ap, arith, str_eq, str_eq_iff,
}
use tracers.Syn.Types.{
  SynType, slice, array, ptr, reference, bare_fn, tuple, path, trait_object, impl_trait, paren,
  group, infer, never, macro_call, verbatim, Types, end_types, elem, FnInputs, end_inputs, input,
  ReturnType, default, output, Segments, end_segments, segment, PathArguments, no_arguments,
  angle_bracketed, parenthesized, GenericArguments, end_arguments, type_argument, other_argument,
  Bounds, end_bounds, trait_bound, lifetime_bound,
}

lifetime_eq : Option String → Option String → Bool
lifetime_eq none none = true
lifetime_eq (some l) (some m) = str_eq l m
lifetime_eq _ _ = false

unfoldable mutual
  unfolding lifetime_eq

  pub type_eq : SynType → SynType → Bool
  type_eq (slice t₁) (slice t₂) = type_eq t₁ t₂
  type_eq (array s₁ t₁) (array s₂ t₂) = str_eq s₁ s₂ && type_eq t₁ t₂
  type_eq (ptr s₁ t₁) (ptr s₂ t₂) = str_eq s₁ s₂ && type_eq t₁ t₂
  type_eq (reference l₁ s₁ t₁) (reference l₂ s₂ t₂) =
      lifetime_eq l₁ l₂ && (str_eq s₁ s₂ && type_eq t₁ t₂)
  type_eq (bare_fn s₁ is₁ out₁) (bare_fn s₂ is₂ out₂) =
      str_eq s₁ s₂ && (inputs_eq is₁ is₂ && output_eq out₁ out₂)
  type_eq (tuple ts₁) (tuple ts₂) = types_eq ts₁ ts₂
  type_eq (path s₁ p₁) (path s₂ p₂) = str_eq s₁ s₂ && segments_eq p₁ p₂
  type_eq (trait_object s₁ bs₁) (trait_object s₂ bs₂) = str_eq s₁ s₂ && bounds_eq bs₁ bs₂
  type_eq (impl_trait bs₁) (impl_trait bs₂) = bounds_eq bs₁ bs₂
  type_eq (paren t₁) (paren t₂) = type_eq t₁ t₂
  type_eq (group t₁) (group t₂) = type_eq t₁ t₂
  type_eq infer infer = true
  type_eq never never = true
  type_eq (macro_call s₁) (macro_call s₂) = str_eq s₁ s₂
  type_eq (verbatim s₁) (verbatim s₂) = str_eq s₁ s₂
  type_eq _ _ = false

  pub types_eq : Types → Types → Bool
  types_eq end_types end_types = true
  types_eq (elem t₁ ts₁) (elem t₂ ts₂) = type_eq t₁ t₂ && types_eq ts₁ ts₂
  types_eq _ _ = false

  pub inputs_eq : FnInputs → FnInputs → Bool
  inputs_eq end_inputs end_inputs = true
  inputs_eq (input s₁ t₁ is₁) (input s₂ t₂ is₂) =
      str_eq s₁ s₂ && (type_eq t₁ t₂ && inputs_eq is₁ is₂)
  inputs_eq _ _ = false

  pub output_eq : ReturnType → ReturnType → Bool
  output_eq default default = true
  output_eq (output t₁) (output t₂) = type_eq t₁ t₂
  output_eq _ _ = false

  pub segments_eq : Segments → Segments → Bool
  segments_eq end_segments end_segments = true
  segments_eq (segment s₁ args₁ p₁) (segment s₂ args₂ p₂) =
      str_eq s₁ s₂ && (arguments_eq args₁ args₂ && segments_eq p₁ p₂)
  segments_eq _ _ = false

  pub arguments_eq : PathArguments → PathArguments → Bool
  arguments_eq no_arguments no_arguments = true
  arguments_eq (angle_bracketed gs₁) (angle_bracketed gs₂) = generics_eq gs₁ gs₂
  arguments_eq (parenthesized ts₁ out₁) (parenthesized ts₂ out₂) =
      types_eq ts₁ ts₂ && output_eq out₁ out₂
  arguments_eq _ _ = false

  pub generics_eq : GenericArguments → GenericArguments → Bool
  generics_eq end_arguments end_arguments = true
  generics_eq (type_argument t₁ gs₁) (type_argument t₂ gs₂) = type_eq t₁ t₂ && generics_eq gs₁ gs₂
  generics_eq (other_argument s₁ gs₁) (other_argument s₂ gs₂) = str_eq s₁ s₂ && generics_eq gs₁ gs₂
  generics_eq _ _ = false

  pub bounds_eq : Bounds → Bounds → Bool
  bounds_eq end_bounds end_bounds = true
  bounds_eq (trait_bound s₁ p₁ bs₁) (trait_bound s₂ p₂ bs₂) =
      str_eq s₁ s₂ && (segments_eq p₁ p₂ && bounds_eq bs₁ bs₂)
  bounds_eq (lifetime_bound s₁ bs₁) (lifetime_bound s₂ bs₂) = str_eq s₁ s₂ && bounds_eq bs₁ bs₂
  bounds_eq _ _ = false

lifetime_eq_sound : (l m : Option String) → lifetime_eq l m ≡ true → l ≡ m
unfolding lifetime_eq
lifetime_eq_sound none none h = refl
lifetime_eq_sound (some l) (some m) h = ap some ((str_eq_iff l m).0 h)
lifetime_eq_sound _ _ h = absurd (cc)

both : (a b : Bool) → (a && b) ≡ true → (a ≡ true) × (b ≡ true)
both a b h = ground arith

str_eq_sound : (s t : String) → str_eq s t ≡ true → s ≡ t
str_eq_sound s t h = (str_eq_iff s t).0 h

-- Types that are equal in this sense are the same type.
mutual
  unfolding type_eq

  pub type_eq_sound : (x y : SynType) → type_eq x y ≡ true → x ≡ y
  type_eq_sound (slice t₁) (slice t₂) h = cc (type_eq_sound t₁ t₂ h)
  type_eq_sound (array s₁ t₁) (array s₂ t₂) h =
      let (h0, r0) = both (str_eq s₁ s₂) (type_eq t₁ t₂) h in
      cc (str_eq_sound s₁ s₂ h0, type_eq_sound t₁ t₂ r0)
  type_eq_sound (ptr s₁ t₁) (ptr s₂ t₂) h =
      let (h0, r0) = both (str_eq s₁ s₂) (type_eq t₁ t₂) h in
      cc (str_eq_sound s₁ s₂ h0, type_eq_sound t₁ t₂ r0)
  type_eq_sound (reference l₁ s₁ t₁) (reference l₂ s₂ t₂) h =
      let (h0, r0) = both (lifetime_eq l₁ l₂) (str_eq s₁ s₂ && type_eq t₁ t₂) h in
      let (h1, r1) = both (str_eq s₁ s₂) (type_eq t₁ t₂) r0 in
      cc (lifetime_eq_sound l₁ l₂ h0, str_eq_sound s₁ s₂ h1, type_eq_sound t₁ t₂ r1)
  type_eq_sound (bare_fn s₁ is₁ out₁) (bare_fn s₂ is₂ out₂) h =
      let (h0, r0) = both (str_eq s₁ s₂) (inputs_eq is₁ is₂ && output_eq out₁ out₂) h in
      let (h1, r1) = both (inputs_eq is₁ is₂) (output_eq out₁ out₂) r0 in
      cc (str_eq_sound s₁ s₂ h0, inputs_eq_sound is₁ is₂ h1, output_eq_sound out₁ out₂ r1)
  type_eq_sound (tuple ts₁) (tuple ts₂) h = cc (types_eq_sound ts₁ ts₂ h)
  type_eq_sound (path s₁ p₁) (path s₂ p₂) h =
      let (h0, r0) = both (str_eq s₁ s₂) (segments_eq p₁ p₂) h in
      cc (str_eq_sound s₁ s₂ h0, segments_eq_sound p₁ p₂ r0)
  type_eq_sound (trait_object s₁ bs₁) (trait_object s₂ bs₂) h =
      let (h0, r0) = both (str_eq s₁ s₂) (bounds_eq bs₁ bs₂) h in
      cc (str_eq_sound s₁ s₂ h0, bounds_eq_sound bs₁ bs₂ r0)
  type_eq_sound (impl_trait bs₁) (impl_trait bs₂) h = cc (bounds_eq_sound bs₁ bs₂ h)
  type_eq_sound (paren t₁) (paren t₂) h = cc (type_eq_sound t₁ t₂ h)
  type_eq_sound (group t₁) (group t₂) h = cc (type_eq_sound t₁ t₂ h)
  type_eq_sound infer infer h = refl
  type_eq_sound never never h = refl
  type_eq_sound (macro_call s₁) (macro_call s₂) h = cc (str_eq_sound s₁ s₂ h)
  type_eq_sound (verbatim s₁) (verbatim s₂) h = cc (str_eq_sound s₁ s₂ h)
  type_eq_sound _ _ h = absurd (cc)

  pub types_eq_sound : (x y : Types) → types_eq x y ≡ true → x ≡ y
  types_eq_sound end_types end_types h = refl
  types_eq_sound (elem t₁ ts₁) (elem t₂ ts₂) h =
      let (h0, r0) = both (type_eq t₁ t₂) (types_eq ts₁ ts₂) h in
      cc (type_eq_sound t₁ t₂ h0, types_eq_sound ts₁ ts₂ r0)
  types_eq_sound _ _ h = absurd (cc)

  pub inputs_eq_sound : (x y : FnInputs) → inputs_eq x y ≡ true → x ≡ y
  inputs_eq_sound end_inputs end_inputs h = refl
  inputs_eq_sound (input s₁ t₁ is₁) (input s₂ t₂ is₂) h =
      let (h0, r0) = both (str_eq s₁ s₂) (type_eq t₁ t₂ && inputs_eq is₁ is₂) h in
      let (h1, r1) = both (type_eq t₁ t₂) (inputs_eq is₁ is₂) r0 in
      cc (str_eq_sound s₁ s₂ h0, type_eq_sound t₁ t₂ h1, inputs_eq_sound is₁ is₂ r1)
  inputs_eq_sound _ _ h = absurd (cc)

  pub output_eq_sound : (x y : ReturnType) → output_eq x y ≡ true → x ≡ y
  output_eq_sound default default h = refl
  output_eq_sound (output t₁) (output t₂) h = cc (type_eq_sound t₁ t₂ h)
  output_eq_sound _ _ h = absurd (cc)

  pub segments_eq_sound : (x y : Segments) → segments_eq x y ≡ true → x ≡ y
  segments_eq_sound end_segments end_segments h = refl
  segments_eq_sound (segment s₁ args₁ p₁) (segment s₂ args₂ p₂) h =
      let (h0, r0) = both (str_eq s₁ s₂) (arguments_eq args₁ args₂ && segments_eq p₁ p₂) h in
      let (h1, r1) = both (arguments_eq args₁ args₂) (segments_eq p₁ p₂) r0 in
      cc (str_eq_sound s₁ s₂ h0, arguments_eq_sound args₁ args₂ h1, segments_eq_sound p₁ p₂ r1)
  segments_eq_sound _ _ h = absurd (cc)

  pub arguments_eq_sound : (x y : PathArguments) → arguments_eq x y ≡ true → x ≡ y
  arguments_eq_sound no_arguments no_arguments h = refl
  arguments_eq_sound (angle_bracketed gs₁) (angle_bracketed gs₂) h =
      cc (generics_eq_sound gs₁ gs₂ h)
  arguments_eq_sound (parenthesized ts₁ out₁) (parenthesized ts₂ out₂) h =
      let (h0, r0) = both (types_eq ts₁ ts₂) (output_eq out₁ out₂) h in
      cc (types_eq_sound ts₁ ts₂ h0, output_eq_sound out₁ out₂ r0)
  arguments_eq_sound _ _ h = absurd (cc)

  pub generics_eq_sound : (x y : GenericArguments) → generics_eq x y ≡ true → x ≡ y
  generics_eq_sound end_arguments end_arguments h = refl
  generics_eq_sound (type_argument t₁ gs₁) (type_argument t₂ gs₂) h =
      let (h0, r0) = both (type_eq t₁ t₂) (generics_eq gs₁ gs₂) h in
      cc (type_eq_sound t₁ t₂ h0, generics_eq_sound gs₁ gs₂ r0)
  generics_eq_sound (other_argument s₁ gs₁) (other_argument s₂ gs₂) h =
      let (h0, r0) = both (str_eq s₁ s₂) (generics_eq gs₁ gs₂) h in
      cc (str_eq_sound s₁ s₂ h0, generics_eq_sound gs₁ gs₂ r0)
  generics_eq_sound _ _ h = absurd (cc)

  pub bounds_eq_sound : (x y : Bounds) → bounds_eq x y ≡ true → x ≡ y
  bounds_eq_sound end_bounds end_bounds h = refl
  bounds_eq_sound (trait_bound s₁ p₁ bs₁) (trait_bound s₂ p₂ bs₂) h =
      let (h0, r0) = both (str_eq s₁ s₂) (segments_eq p₁ p₂ && bounds_eq bs₁ bs₂) h in
      let (h1, r1) = both (segments_eq p₁ p₂) (bounds_eq bs₁ bs₂) r0 in
      cc (str_eq_sound s₁ s₂ h0, segments_eq_sound p₁ p₂ h1, bounds_eq_sound bs₁ bs₂ r1)
  bounds_eq_sound (lifetime_bound s₁ bs₁) (lifetime_bound s₂ bs₂) h =
      let (h0, r0) = both (str_eq s₁ s₂) (bounds_eq bs₁ bs₂) h in
      cc (str_eq_sound s₁ s₂ h0, bounds_eq_sound bs₁ bs₂ r0)
  bounds_eq_sound _ _ h = absurd (cc)
