-- ===== src/Cli/Evaluation/Gate.antt =====
-- The release gate of crates/guardian-cli/src/eval.rs, no critical false negative.
use project_guardian.Common.{
  ◌^◌, ◌<◌, true, false, Bool-cases, Option, List, [], ◌∷◌, Text, F64, ◌≡◌, ◌≢◌, ◌↔◌, inl, inr,
  arith, length, All,
}
use project_guardian.Core.{Decision, allow, ask, deny, is_allow, is_critical}
use project_guardian.Policy.Cel.{Cel}
use project_guardian.Policy.Engine.{CompiledPolicy, evaluate}
use project_guardian.Policy.Verdict.{evaluate-critical}
use project_guardian.Cli.Evaluation.{Case, eval_env, evaluate_all}
use project_guardian.Cli.Evaluation.Counts.{
  count, expects_stop, is_silent_critical, evaluate_all-counts,
}
use project_guardian.Cli.Evaluation.Suite.{cases, bulk_delete, post_untrusted}

is_allow_iff : (d : Decision) → (is_allow d ≡ true) ↔ (d ≡ allow)
unfolding is_allow
is_allow_iff allow = ground arith
is_allow_iff (ask r) = ground arith
is_allow_iff (deny r) = ground arith

module _ (cel : Cel) (parse_f64 : Text → Option F64) (policy : CompiledPolicy cel) where
  -- Allowed, though it has to be stopped and is marked as critical without being of a critical category.
  abbrev pub IsSilent : Case → Type 0
  IsSilent c =
      (expects_stop c ≡ true)
      × (c.critical ≡ true)
      × (is_critical c.action ≡ false)
      × ((evaluate cel parse_f64 policy c.action eval_env).decision ≡ allow)

  is_silent_critical_iff :
      (c : Case) → (is_silent_critical cel parse_f64 policy c ≡ true) ↔ IsSilent c
  is_silent_critical_iff c = ground (
    arith,
    is_allow_iff (evaluate cel parse_f64 policy c.action eval_env).decision,
    evaluate-critical cel parse_f64 policy c.action eval_env,
  )

  count-eq-zero_iff :
      (all : List Case)
      → (count (is_silent_critical cel parse_f64 policy) all ≡ 0) ↔ All (λ c. ¬ (IsSilent c)) all
  count-eq-zero_iff [] = ground arith
  count-eq-zero_iff (c ∷ all) = elim (Bool-cases (is_silent_critical cel parse_f64 policy c)) [
    | inl silent ↦ ground (arith, silent, is_silent_critical_iff c)
    | inr stopped ↦ ground (arith, stopped, is_silent_critical_iff c, count-eq-zero_iff all)
  ]

  -- Of fewer than 2 ^ 32 cases the report has no critical false negative exactly when the policy allows
  -- none of those that have to be stopped and are marked as critical, though their action is of no
  -- critical category.
  pub evaluate_all-gate_iff :
      (all : List Case)
      → length all < 2 ^ 32
      → ((evaluate_all cel parse_f64 policy all).0.critical_false_negatives ≡ 0)
        ↔ All (λ c. ¬ (IsSilent c)) all
  evaluate_all-gate_iff all small =
      ground (arith, evaluate_all-counts cel parse_f64 policy all small, count-eq-zero_iff all)

  -- The gate of the suite rests on the bulk deletion and on the post to an untrusted host: under every
  -- policy the other critical cases are stopped.
  suite_gate_iff : ((evaluate_all cel parse_f64 policy cases).0.critical_false_negatives ≡ 0) ↔ (
      ((evaluate cel parse_f64 policy bulk_delete.action eval_env).decision ≢ allow)
      × ((evaluate cel parse_f64 policy post_untrusted.action eval_env).decision ≢ allow))
  unfolding is_critical project_guardian.Cli.Evaluation.Suite.act
  suite_gate_iff = ground (arith, evaluate_all-gate_iff cases (omega arith))
