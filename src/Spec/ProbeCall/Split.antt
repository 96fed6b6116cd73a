-- ===== src/Spec/ProbeCall/Split.antt =====
-- How the path of a probe call is taken apart (spec/probe_call.rs).
use tracers.Prelude.{
  ◌≤◌, String, Bool, true, false, some, List, [], ◌∷◌, ◌++◌, ◌≡◌, refl, ap, sym, ◌∙◌, arith, length,
  length-append, ltb,
}
use tracers.Std.FilePath.{init, init-append, last-append}
use tracers.Error.{TracersError}
use tracers.Spec.Partial.{pure, fail}
use tracers.Spec.ProbeCall.{
  pop, popped, not_empty, push_value, missing_provider, SynPath, Expr, call, path, other, Tokens,
  ProbeCallDetails, without_trailing, split_path, from_call_expression,
}

pop-append :
    (vs : List String) (v : String) (t : Bool)
    → pop (record { values = vs ++ v ∷ []; trailing = t })
      ≡ some ((v, t), record { values = vs; trailing = not_empty vs })
pop-append vs v t =
    ap (λ l. popped l (init (vs ++ v ∷ [])) t) (last-append vs v)
    ∙ ap (λ before. popped (some v) before t) (init-append vs v)

snoc : (x : String) (xs : List String) → (ys : List String) × (y : String) × (x ∷ xs ≡ ys ++ y ∷ [])
snoc x [] = ([], x, refl)
snoc x (z ∷ xs) = let (ys, y, same) = snoc z xs in (x ∷ ys, y, ap (λ t. x ∷ t) same)

push_value-popped :
    (ys : List String) (y : String)
    → push_value y (record { values = ys; trailing = not_empty ys })
      ≡ some (record { values = ys ++ y ∷ []; trailing = false })
push_value-popped [] y = refl
push_value-popped (z ∷ ys) y = refl

-- The trailing separator is dropped, and the values stay.
without_trailing_lem :
    (x : String) (xs : List String)
    → without_trailing (record { values = x ∷ xs; trailing = true })
      ≡ some (record { values = x ∷ xs; trailing = false })
unfolding without_trailing
without_trailing_lem x xs =
    let (ys, y, same) = snoc x xs in
    ap (λ vs. without_trailing (record { values = vs; trailing = true })) same
    ∙ rw (pop-append ys y true) (push_value-popped ys y)
    ∙ ap (λ vs. some (record { values = vs; trailing = false })) (sym same)

-- A list of at least two has a last value and others.
at_least_two :
    (vs : List String)
    → 2 ≤ length vs
    → (ys : List String) × (z : String) × (vs ≡ ys ++ z ∷ []) × (1 ≤ length ys)
at_least_two [] h = absurd (omega arith)
at_least_two (x ∷ xs) h =
    let (ys, z, same) = snoc x xs in
    (ys, z, same, omega (arith, ap length same, length-append ys (z ∷ [])))

-- A call of a path of at least two segments.
abbrev pub IsProbeCall : Expr → Type 0
IsProbeCall (call (path p) args) = 2 ≤ length p.segments.values
IsProbeCall (call (call f xs) args) = ⊥
IsProbeCall (call (other text) args) = ⊥
IsProbeCall (path p) = ⊥
IsProbeCall (other text) = ⊥

module _ (tokens : Tokens) where
  split_path_lem :
      (whole : Expr) (leading trailing : Bool) (ys : List String) (z : String) (args : List String)
      → 1 ≤ length ys
      → split_path whole
          (record {
            leading = leading;
            segments = record { values = ys ++ z ∷ []; trailing = trailing };
          })
          args
        ≡ pure (record {
          call = whole;
          probe_fq_path = record {
            leading = leading;
            segments = record { values = ys ++ z ∷ []; trailing = trailing };
          };
          provider = record {
            leading = leading;
            segments = record { values = ys; trailing = false };
          };
          probe = z;
          args = args;
        })
  unfolding split_path
  split_path_lem whole leading trailing [] z args h = absurd (omega arith)
  split_path_lem whole leading trailing (y ∷ ys) z args h =
      rw (pop-append (y ∷ ys) z trailing, split_path) (rw (without_trailing_lem y ys))

  -- A call of a path of at least two segments is taken apart: the last segment is the probe, those
  -- before it, with no separator behind them, are the provider, and the arguments are the call's.
  pub from_call_expression-accepts :
      (p : SynPath) (args : List String)
      → IsProbeCall (call (path p) args)
      → (details : ProbeCallDetails) × (from_call_expression tokens (call (path p) args)
          ≡ pure details)
        × (p.segments.values ≡ details.provider.segments.values ++ details.probe ∷ [])
        × (details.provider.segments.trailing ≡ false)
        × (details.provider.leading ≡ p.leading)
        × (details.args ≡ args)
  unfolding from_call_expression
  from_call_expression-accepts p args h =
      let (ys, z, same, some_provider) = at_least_two p.segments.values h in
      let enough : ltb (length p.segments.values) 2 ≡ false = ground arith in
      (
        record {
          call = call (path p) args;
          probe_fq_path = record {
            leading = p.leading;
            segments = record { values = ys ++ z ∷ []; trailing = p.segments.trailing };
          };
          provider = record {
            leading = p.leading;
            segments = record { values = ys; trailing = false };
          };
          probe = z;
          args = args;
        },
        rw (enough, from_call_expression)
            (ap
                (λ vs.
                  split_path (call (path p) args)
                    (record {
                      leading = p.leading;
                      segments = record { values = vs; trailing = p.segments.trailing };
                    })
                    args)
                same
              ∙ split_path_lem (call (path p) args) p.leading p.segments.trailing ys z args
                  some_provider),
        same,
        refl,
        refl,
        refl,
      )

  -- Any other expression is refused with an error, and nothing panics.
  pub from_call_expression-refuses :
      (e : Expr)
      → (¬ IsProbeCall e)
      → (error : TracersError) × (from_call_expression tokens e ≡ fail error)
  unfolding from_call_expression
  from_call_expression-refuses (call (path p) args) h =
      let short : ltb (length p.segments.values) 2 ≡ true = ground arith in
      (missing_provider tokens p args, rw (short, from_call_expression))
  from_call_expression-refuses (call (call f xs) args) h = (_, refl)
  from_call_expression-refuses (call (other text) args) h = (_, refl)
  from_call_expression-refuses (path p) h = (_, refl)
  from_call_expression-refuses (other text) h = (_, refl)
