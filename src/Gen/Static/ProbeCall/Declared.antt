-- ===== src/Gen/Static/ProbeCall/Declared.antt =====
-- The names that the code of a probe call (gen/static/probe_call.rs) uses, and those that the module of
-- a provider (gen/static/provider_trait.rs) declares.
use mathlib.Core.List.{Memᴰ}
use mathlib.Core.List.Memᴰ
use mathlib.Core.Path.{subst}
use mathlib.Core.Option.{some-injective}
use tracers.Prelude.{
  String, ◌<>◌, Bool, true, false, Option, none, some, List, [], ◌∷◌, ◌++◌, map, ◌≡◌, refl, ap,
  Option-cases, inl, inr,
}
use tracers.Tracing.TracingTarget.{TracingTarget}
use tracers.BuildRs.BuildInfo.{BuildInfo}
use tracers.Spec.ProbeArg.{ProbeArgSpecification}
use tracers.Spec.Probe.{ProbeSpecification}
use tracers.Spec.Provider.{ProviderSpecification}
use tracers.Gen.Common.{args_lifetime_parameters}
use tracers.Gen.Static.Probe.{
  Naming, target_of, generate_native_declaration, generate_native_probe_func,
  generate_native_is_enabled, generate_rust_is_enabled, generate_wrapper_func, wrapper_for,
  wrapper_name,
}
use tracers.Gen.Static.ProviderTrait.{wrapper_funcs}
use tracers.Gen.Rust.{
  NativeFunc, NativeEnabled, semaphore, enabled_func, RustEnabled, WrapperFunc, ImplMod, no_mod,
  dummy, extern_c, Condition, constant_false, unsafe_call, WrapStatement, CallCode, never, fire,
  dynamic_fire,
}

abbrev pub names_of_wrappers : List (Option WrapperFunc) → List String
names_of_wrappers [] = []
names_of_wrappers (none ∷ rest) = names_of_wrappers rest
names_of_wrappers (some func ∷ rest) = func.name ∷ names_of_wrappers rest

-- The functions of declarations; a semaphore is none.
abbrev pub names_of_natives : List (NativeFunc × NativeEnabled) → List String
names_of_natives [] = []
names_of_natives ((func, semaphore _ _) ∷ rest) = func.name ∷ names_of_natives rest
names_of_natives ((func, enabled_func _ name) ∷ rest) = func.name ∷ name ∷ names_of_natives rest

abbrev pub names_of_enabled : List (Option RustEnabled) → List String
names_of_enabled [] = []
names_of_enabled (none ∷ rest) = names_of_enabled rest
names_of_enabled (some func ∷ rest) = func.name ∷ names_of_enabled rest

-- The functions that a module declares
abbrev pub functions : ImplMod → List String
functions no_mod = []
functions (dummy contents) =
    names_of_wrappers contents.wrapper_funcs ++ names_of_natives contents.native_declarations
functions (extern_c contents enabled lib) =
    names_of_wrappers contents.wrapper_funcs
    ++ (names_of_natives contents.native_declarations ++ names_of_enabled enabled)

abbrev pub names_of_condition : Condition → List String
names_of_condition constant_false = []
names_of_condition (unsafe_call path func) = func ∷ []

abbrev pub names_of_wrap : Option WrapStatement → List String
names_of_wrap none = []
names_of_wrap (some statement) = statement.func ∷ []

-- The functions of the module that a call's code names
abbrev pub names_of_call : CallCode → List String
names_of_call (never original) = []
names_of_call (fire code) =
    names_of_condition code.condition ++ (names_of_wrap code.wrap ++ code.func ∷ [])
names_of_call (dynamic_fire provider func args) = []

natives_head :
    (func : NativeFunc) (enabled : NativeEnabled) (rest : List (NativeFunc × NativeEnabled))
    {n : String}
    → n ≡ func.name
    → Memᴰ n (names_of_natives ((func, enabled) ∷ rest))
natives_head func (semaphore _ _) rest e = Memᴰ.head e
natives_head func (enabled_func _ _) rest e = Memᴰ.head e

natives_tail :
    (func : NativeFunc) (enabled : NativeEnabled) (rest : List (NativeFunc × NativeEnabled))
    {n : String}
    → Memᴰ n (names_of_natives rest)
    → Memᴰ n (names_of_natives ((func, enabled) ∷ rest))
natives_tail func (semaphore _ _) rest member = Memᴰ.tail member
natives_tail func (enabled_func _ _) rest member = Memᴰ.tail (Memᴰ.tail member)

wrappers_tail :
    (func : Option WrapperFunc) (rest : List (Option WrapperFunc)) {n : String}
    → Memᴰ n (names_of_wrappers rest)
    → Memᴰ n (names_of_wrappers (func ∷ rest))
wrappers_tail none rest member = member
wrappers_tail (some func) rest member = Memᴰ.tail member

module _ (naming : Naming) (info : BuildInfo) (spec : ProviderSpecification) where
  pub natives_Mem :
      (probes : List ProbeSpecification) {p : ProbeSpecification}
      → Memᴰ p probes
      → Memᴰ p.method_name
          (names_of_natives (map (generate_native_declaration naming info spec) probes))
  unfolding generate_native_declaration generate_native_probe_func
  natives_Mem [] member = absurd (Memᴰ.not-nil member)
  natives_Mem (q ∷ probes) (Memᴰ.head e) =
      natives_head (generate_native_probe_func naming info spec q)
        (generate_native_is_enabled naming info spec q)
        (map (generate_native_declaration naming info spec) probes) (ap (λ p'. p'.method_name) e)
  natives_Mem (q ∷ probes) (Memᴰ.tail member) =
      natives_tail (generate_native_probe_func naming info spec q)
        (generate_native_is_enabled naming info spec q)
        (map (generate_native_declaration naming info spec) probes) (natives_Mem probes member)

  pub natives_enabled :
      (probes : List ProbeSpecification) {p : ProbeSpecification}
      → target_of info ≡ TracingTarget.lttng
      → Memᴰ p probes
      → Memᴰ
          (p.name <> "_enabled")
          (names_of_natives (map (generate_native_declaration naming info spec) probes))
  unfolding generate_native_declaration generate_native_is_enabled
  natives_enabled [] lttng member = absurd (Memᴰ.not-nil member)
  natives_enabled (q ∷ probes) lttng (Memᴰ.head e) =
      rw (lttng, generate_native_is_enabled)
        (Memᴰ.tail (Memᴰ.head (ap (λ p'. p'.name <> "_enabled") e)))
  natives_enabled (q ∷ probes) lttng (Memᴰ.tail member) =
      rw (lttng, generate_native_is_enabled)
        (Memᴰ.tail (Memᴰ.tail (natives_enabled probes lttng member)))

  pub enabled_Mem :
      (probes : List ProbeSpecification) {p : ProbeSpecification}
      → target_of info ≡ TracingTarget.stap
      → Memᴰ p probes
      → Memᴰ
          (p.name <> "_enabled")
          (names_of_enabled (map (generate_rust_is_enabled naming info spec) probes))
  unfolding generate_rust_is_enabled
  enabled_Mem [] stap member = absurd (Memᴰ.not-nil member)
  enabled_Mem (q ∷ probes) stap (Memᴰ.head e) =
      rw (stap, generate_rust_is_enabled) (Memᴰ.head (ap (λ p'. p'.name <> "_enabled") e))
  enabled_Mem (q ∷ probes) stap (Memᴰ.tail member) =
      rw (stap, generate_rust_is_enabled) (Memᴰ.tail (enabled_Mem probes stap member))

abbrev pub is_empty {ℓ} : {A : Type ℓ} → List A → Bool
is_empty [] = true
is_empty (x ∷ xs) = false

wrapper_for-Mem :
    (probe : String) (args : List ProbeArgSpecification) (others : List (Option WrapperFunc))
    {func : Option WrapperFunc}
    → wrapper_for probe args ≡ some func
    → is_empty args ≡ false
    → Memᴰ (wrapper_name probe) (names_of_wrappers (func ∷ others))
unfolding wrapper_for
wrapper_for-Mem probe [] others made args = absurd (cc)
wrapper_for-Mem probe (first ∷ rest) others {func} made args =
    elim (Option-cases (args_lifetime_parameters (first ∷ rest))) [
      | inl missing ↦ absurd (cc (rw (missing, wrapper_for) at made))
      | inr (ls, found) ↦
          subst (λ f. Memᴰ (wrapper_name probe) (names_of_wrappers (f ∷ others)))
            (some-injective _ _ (rw (found, wrapper_for) at made)) (Memᴰ.head refl)
    ]

pub wrappers_Mem :
    (probes : List ProbeSpecification) {p : ProbeSpecification} {funcs : List (Option WrapperFunc)}
    → wrapper_funcs probes ≡ some funcs
    → Memᴰ p probes
    → is_empty p.args ≡ false
    → Memᴰ (wrapper_name p.name) (names_of_wrappers funcs)
unfolding wrapper_funcs generate_wrapper_func
wrappers_Mem [] made member args = absurd (Memᴰ.not-nil member)
wrappers_Mem (q ∷ probes) {p} {funcs} made member args =
    elim (Option-cases (wrapper_for q.name q.args)) [
      | inl missing ↦ absurd (cc (rw (missing, wrapper_funcs) at made))
      | inr (func, found) ↦ elim (Option-cases (wrapper_funcs probes)) [
        | inl missing ↦
            absurd (cc (rw (missing, wrapper_funcs) at (rw (found, wrapper_funcs) at made)))
        | inr (others, rest) ↦
            subst (λ fs. Memᴰ (wrapper_name p.name) (names_of_wrappers fs))
              (some-injective _ _ (rw (rest, wrapper_funcs) at (rw (found, wrapper_funcs) at made)))
              (elim (Memᴰ.cases_cons member) [
                | inl e ↦ Memᴰ.cast (ap (λ p'. wrapper_name p'.name) e) (
                    wrapper_for-Mem q.name q.args others found
                      (subst (λ p'. is_empty p'.args ≡ false) e args))
                | inr member' ↦ wrappers_tail func others (wrappers_Mem probes rest member' args)
              ])
      ]
    ]
