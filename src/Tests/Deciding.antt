-- ===== src/Tests/Deciding.antt =====
-- Concrete policies and actions of crates/guardian-core and crates/guardian-policy, decided.
use project_guardian.Common.{
  ℕ, ◌≢◌, ◌↔◌, true, false, [], ◌∷◌, Text, bytes, Result, ok, ◌≡◌, refl, All,
}
use project_guardian.Policy.Spec.{resolve, verdicts}
use project_guardian.Core.{is_allow}
use project_guardian.Common.{◌&&◌, ◌||◌, any, if◌then◌else◌}
use project_guardian.Core.{allow, ask, is_critical}
use project_guardian.Policy.Schema.{Policy, validate_structure}
use project_guardian.Policy.Engine.{evaluate, compile_toml, floor_reason}
use project_guardian.Policy.Verdict.{hits, Grants, default_of, evaluate_lem, evaluate-eq-allow_iff}
use project_guardian.Tests.Samples.{
  sample_cel, no_number, payment_action, read_action, sample_env, sample_policy, compiled_sample,
  allow_rule,
}

abbrev sample_version : ℕ
sample_version = 1

evaluate_lem_example :
    let p = compiled_sample (allow_rule ∷ []) (true ∷ []) in
    let rules = hits sample_cel no_number p payment_action sample_env in
    let o = evaluate sample_cel no_number p payment_action sample_env in
    let d = resolve (default_of p.policy) (verdicts no_number payment_action rules) in
    (o.decision ≡ (if is_critical payment_action && is_allow d then ask floor_reason else d))
    × (o.sandbox ≡ any (λ r. r.sandbox) rules)
    × (o.critical ≡ (any (λ r. r.critical) rules || is_critical payment_action))
evaluate_lem_example =
    evaluate_lem sample_cel no_number (compiled_sample (allow_rule ∷ []) (true ∷ [])) payment_action
      sample_env

parse_sample : Text → Result Policy Text
parse_sample s = ok (sample_policy (allow_rule ∷ []))

evaluate-eq-allow_iff_example :
    ((evaluate sample_cel no_number
        (compiled_sample (allow_rule ∷ []) (true ∷ []))
        read_action
        sample_env).decision
      ≡ allow)
    ↔ ((is_critical read_action ≡ false)
        × (hits sample_cel no_number
              (compiled_sample (allow_rule ∷ []) (true ∷ []))
              read_action
              sample_env
            ≢ [])
        × All (Grants no_number read_action) (
            hits sample_cel no_number
              (compiled_sample (allow_rule ∷ []) (true ∷ []))
              read_action
              sample_env))
unfolding compile_toml parse_sample validate_structure bytes
evaluate-eq-allow_iff_example =
    evaluate-eq-allow_iff sample_cel no_number (compiled_sample (allow_rule ∷ []) (true ∷ []))
      read_action sample_env parse_sample [] refl
