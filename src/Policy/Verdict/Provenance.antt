-- ===== src/Policy/Verdict/Provenance.antt =====
-- Where the rule that an evaluation of crates/guardian-policy/src/engine.rs reports comes from.
use project_guardian.Common.{
  true, false, Option, none, some, List, [], ◌∷◌, ◌≡◌, ◌⊎◌, inl, Text, F64, Exists, arith, refl,
}
use project_guardian.Core.{
  Action, is_critical, Decision, ask, is_allow, most_restrictive, decision_eq_iff,
}
use project_guardian.Policy.Schema.{Rule}
use project_guardian.Policy.Cel.{Cel}
use project_guardian.Policy.Engine.{
  EvalEnv, CompiledPolicy, build_context, rule_decision, floor_reason, floor_rule, Loop, start,
  apply_floor, on_match, evaluate,
}
use project_guardian.Policy.Spec.{matching, absorb, run_rules-eq-absorb}

module _ (parse_f64 : Text → Option F64) (action : Action) where
  -- The outcome reports the rule, and its decision is what the rule asks for.
  abbrev pub Reports : Option Text → Decision → Rule → Type 0
  Reports id d rule = (id ≡ some rule.id) × (rule_decision parse_f64 rule action ≡ d)

  Reports-on_match :
      (rule : Rule) (l : Loop)
      → let o = (on_match parse_f64 rule action l).outcome in
        ((l.matched_any ≡ true)
          × (o.matched_rule ≡ l.outcome.matched_rule)
          × (o.decision ≡ l.outcome.decision))
        ⊎ Reports o.matched_rule o.decision rule
  unfolding on_match
  Reports-on_match rule l = ground (
    arith,
    decision_eq_iff (most_restrictive l.outcome.decision (rule_decision parse_f64 rule action))
        l.outcome.decision,
  )

  Reports-absorb :
      (rules : List Rule) (l : Loop)
      → let o = (absorb parse_f64 action rules l).outcome in
        ((o.matched_rule ≡ l.outcome.matched_rule) × (o.decision ≡ l.outcome.decision))
        ⊎ Exists (Reports o.matched_rule o.decision) rules
  Reports-absorb [] l = inl (refl, refl)
  Reports-absorb (rule ∷ rules) l =
      ground
        (arith, Reports-on_match rule l, Reports-absorb rules (on_match parse_f64 rule action l))

  Reports-start :
      (rules : List Rule) (l : Loop)
      → l.matched_any ≡ false
      → let o = (absorb parse_f64 action rules l).outcome in
        (rules ≡ []) ⊎ Exists (Reports o.matched_rule o.decision) rules
  Reports-start [] l h = inl refl
  Reports-start (rule ∷ rules) l h =
      ground
        (arith, Reports-on_match rule l, Reports-absorb rules (on_match parse_f64 rule action l))

-- The rule that is reported with a decision is a rule that matches and asks for that decision, or
-- the floor's marker with the floor's review of a critical action, or none where no rule matches.
pub evaluate-Reports :
    (cel : Cel) (parse_f64 : Text → Option F64) (p : CompiledPolicy cel) (action : Action)
    (env : EvalEnv)
    → let o = evaluate cel parse_f64 p action env in
      let hits = matching cel (build_context action env) p.policy.rules p.programs in
      Exists (Reports parse_f64 action o.matched_rule o.decision) hits
      ⊎ (is_critical action ≡ true)
        × (o.matched_rule ≡ some floor_rule)
        × (o.decision ≡ ask floor_reason)
      ⊎ (hits ≡ []) × (o.matched_rule ≡ none)
unfolding evaluate apply_floor start is_allow
evaluate-Reports cel parse_f64 p action env =
    let hits = matching cel (build_context action env) p.policy.rules p.programs in
    rw
      (run_rules-eq-absorb cel parse_f64 action (build_context action env) p.policy.rules p.programs
        (start p.policy))
      (ground (arith, Reports-start parse_f64 action hits (start p.policy) refl))
