-- ===== src/Arity/Fires.antt =====
-- What a probe of libstapsdt is fired with (tracers-dyn-stap/build.rs), and what it was registered with
-- (tracers-dyn-stap/src/provider.rs).
use tracers.Prelude.{
  ℕ, zero, suc, ◌≤◌, ◌+◌, String, ◌<>◌, List, [], ◌∷◌, length, length-append, take, ◌≡◌, refl, sym,
  ap, ◌∙◌, arith,
}
use tracers.Prelude.Radix.{decimal}
use tracers.Dynamic.Stap.{NativeArgType, variadic}
use tracers.Dynamic.Stap.Protocol.{variadic_lem}
use tracers.Arity.{
  get_type_param_names, type_params_from, xform_types_i, xform_types_from, typed_args,
}
use tracers.Arity.Stap.{split_off, stap_arg_count, stap_type_params, all_args, stap_arg_names}

length-xform_types_from :
    (index : ℕ) (xs : List String) (f : ℕ → String → String)
    → length (xform_types_from index xs f) ≡ length xs
unfolding xform_types_from
length-xform_types_from index [] f = refl
length-xform_types_from index (x ∷ xs) f = ap suc (length-xform_types_from (suc index) xs f)

length-type_params_from : (index n : ℕ) → length (type_params_from index n) ≡ n
unfolding type_params_from
length-type_params_from index zero = refl
length-type_params_from index (suc n) = ap suc (length-type_params_from (suc index) n)

length-split_off :
    (n : ℕ) (xs : List String)
    → n ≤ length xs
    → (length (split_off n xs).0 ≡ n)
      × (length (split_off n xs).0 + length (split_off n xs).1 ≡ length xs)
unfolding split_off
length-split_off zero xs h = (refl, omega arith)
length-split_off (suc n) [] h = absurd (omega (arith, h))
length-split_off (suc n) (x ∷ xs) h =
    let (kept, both) = length-split_off n xs (omega (arith, h)) in
    (ap suc kept, omega (arith, both))

length-take_six : (xs : List NativeArgType) → length (take 6 xs) ≡ stap_arg_count (length xs)
unfolding stap_arg_count
length-take_six [] = refl
length-take_six (a ∷ []) = refl
length-take_six (a ∷ b ∷ []) = refl
length-take_six (a ∷ b ∷ c ∷ []) = refl
length-take_six (a ∷ b ∷ c ∷ d ∷ []) = refl
length-take_six (a ∷ b ∷ c ∷ d ∷ e ∷ []) = refl
length-take_six (a ∷ b ∷ c ∷ d ∷ e ∷ f ∷ []) = refl
length-take_six (a ∷ b ∷ c ∷ d ∷ e ∷ f ∷ g ∷ rest) = ground arith

stap_arg_count_bound : (n : ℕ) → stap_arg_count n ≤ n
unfolding stap_arg_count
stap_arg_count_bound n = ground arith

length-stap_type_params :
    (n : ℕ)
    → (length (stap_type_params n).0 ≡ stap_arg_count n)
      × (length (stap_type_params n).0 + length (stap_type_params n).1 ≡ n)
unfolding stap_type_params get_type_param_names
length-stap_type_params n =
    let named = length-type_params_from 0 n in
    let (kept, both) =
      length-split_off (stap_arg_count n) (type_params_from 0 n)
        (omega (arith, named, stap_arg_count_bound n)) in
    (kept, omega (arith, both, named))

length-typed_args : (prefix : String) (xs : List String) → length (typed_args prefix xs) ≡ length xs
unfolding typed_args xform_types_i
length-typed_args prefix xs = length-xform_types_from 0 xs _

-- For a probe of any number of arguments, the generated method `c_fire` of that arity takes as many
-- parameters, and passes as many of them to `probeFire` as `providerAddProbe` was told when the probe
-- was added.
pub stap_arg_names-variadic :
    (types : List NativeArgType)
    → (length (all_args (length types)) ≡ length types)
      × (length (stap_arg_names (length types)) ≡ (variadic types).0)
unfolding all_args stap_arg_names xform_types_i
stap_arg_names-variadic types =
    let n = length types in
    let (kept, both) = length-stap_type_params n in
    let params = (stap_type_params n).0 in
    let ignored = (stap_type_params n).1 in
    (
      length-append (typed_args "arg" params) (typed_args "_arg" ignored)
          ∙ omega (arith, length-typed_args "arg" params, length-typed_args "_arg" ignored, both),
      length-xform_types_from 0 params (λ i x. "arg" <> decimal i)
          ∙ kept
          ∙ sym (length-take_six types)
          ∙ sym (variadic_lem types).1,
    )
