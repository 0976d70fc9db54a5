-- ===== src/Tests/Scoring.antt =====
-- Concrete suites through crates/guardian-cli/src/eval.rs.
use project_guardian.Common.{true, [], ◌∷◌, ◌≡◌, ◌↔◌, refl, All, arith}
use project_guardian.Policy.Engine.{evaluate, rule_decision}
use project_guardian.Cli.Evaluation.{evaluate_all}
use project_guardian.Cli.Evaluation.Gate.{IsSilent, evaluate_all-gate_iff}
use project_guardian.Cli.Evaluation.Suite.{cases, act, bulk_delete, payment_over_cap}
use project_guardian.Tests.Samples.{sample_cel, no_number, compiled_sample, allow_rule}

evaluate_all-gate_iff_example :
    let p = compiled_sample (allow_rule ∷ []) (true ∷ []) in
    ((evaluate_all sample_cel no_number p
        (payment_over_cap ∷ bulk_delete ∷ [])).0.critical_false_negatives
      ≡ 0)
    ↔ All (λ c. ¬ (IsSilent sample_cel no_number p c)) (payment_over_cap ∷ bulk_delete ∷ [])
evaluate_all-gate_iff_example =
    evaluate_all-gate_iff sample_cel no_number (compiled_sample (allow_rule ∷ []) (true ∷ []))
      (payment_over_cap ∷ bulk_delete ∷ []) (omega arith)

-- Under a policy that allows all, the floor stops the payments and the credentials.
evaluate_all-allow :
    (evaluate_all sample_cel no_number (compiled_sample (allow_rule ∷ []) (true ∷ [])) cases).0
    ≡ record {
      true_positives = 3;
      false_negatives = 8;
      true_negatives = 3;
      false_positives = 0;
      critical_false_negatives = 2;
      total = 14;
    }
unfolding evaluate_all act evaluate rule_decision
evaluate_all-allow = refl
