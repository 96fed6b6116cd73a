-- ===== src/Spec/ProbeArg/Distinct.antt =====
-- Which lifetime names of `spec/probe_arg.rs` are distinct.
use text.Mathlib.TextLemmas.{append_cancel_left, append_assoc as text-append_assoc}
use tracers.Prelude.{ℕ, String, ◌<>◌, ◌≡◌}
use tracers.Prelude.Radix.NoMark.{marked_inj}
use tracers.Spec.ProbeArg.{lifetime_name}

-- Within a probe, different arguments or different counts give different names.
pub lifetime_name_inj :
    (probe a b : String) (m n : ℕ)
    → lifetime_name probe a m ≡ lifetime_name probe b n
    → (a ≡ b) × (m ≡ n)
unfolding lifetime_name
lifetime_name_inj probe a b m n e =
    marked_inj a b m n
      (append_cancel_left "_" _ _ (append_cancel_left probe _ _ (append_cancel_left "'" _ _ e)))

-- Across probes names can clash: an underscore moves from the probe's name into the argument's.
pub lifetime_name-clash :
    (p q r : String) (n : ℕ) → lifetime_name (p <> "_" <> q) r n ≡ lifetime_name p (q <> "_" <> r) n
unfolding lifetime_name
lifetime_name-clash p q r n = simp text-append_assoc
