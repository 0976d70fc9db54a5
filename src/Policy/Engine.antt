-- ===== src/Policy/Engine.antt =====
-- crates/guardian-policy/src/engine.rs: compiling a policy and evaluating an action against it.
use project_guardian.Common.{
  Bool, true, false, ◌||◌, not, Option, none, some, unwrap_or, List, [], ◌∷◌, ◌++◌, Text, F64,
  bytes, Result, ok, err, ◌>>=◌, if◌then◌else◌,
}
use project_guardian.Core.{
  string, array, object, Values, nil, cons, Members, end, member, Action, is_critical, Decision,
  allow, ask, deny, is_allow, most_restrictive, decision_eq,
}
use project_guardian.Core.Wire.{action_to_value, integer}
use project_guardian.Policy.Schema.{
  DecisionKind, Rule, Policy, PolicyError, invalid_when, from_toml_str,
}
use project_guardian.Policy.Cel.{Cel, Execution, boolean}
use project_guardian.Policy.Caps.{cap_violated}

pub record EvalEnv : Type 0 where
  pub user_home : Text
  pub trusted_hosts : List Text

pub record EvalOutcome : Type 0 where
  pub decision : Decision
  pub matched_rule : Option Text
  pub sandbox : Bool
  pub critical : Bool

unfoldable pub review_reason : Text
review_reason = bytes "This action needs your review."

unfoldable pub blocked_reason : Text
blocked_reason = bytes "This action is blocked by policy."

unfoldable pub floor_reason : Text
floor_reason =
    bytes
      "Critical category (money, credentials, data exfiltration, or irreversible deletion) — always reviewed."

unfoldable pub floor_rule : Text
floor_rule = bytes "critical-category-floor"

unfoldable pub cap_reason : Rule → Text
cap_reason rule = bytes "Exceeds the limit configured for `" ++ rule.id ++ bytes "`."

unfoldable pub decision_from_kind : DecisionKind → Option Text → Decision
decision_from_kind DecisionKind.allow explain = allow
decision_from_kind DecisionKind.ask explain = ask (unwrap_or explain review_reason)
decision_from_kind DecisionKind.deny explain = deny (unwrap_or explain blocked_reason)

strings : List Text → Values
strings [] = nil
strings (s ∷ ss) = cons (string s) (strings ss)

-- The variables that conditions see.
unfoldable pub build_context : Action → EvalEnv → Members
unfolding strings action_to_value bytes
build_context action env = member (bytes "action") (action_to_value action) (
    member (bytes "user") (object (member (bytes "home") (string env.user_home) end)) (
      member (bytes "trusted_hosts") (array (strings env.trusted_hosts))
        (member (bytes "now") (integer action.context.timestamp_ms) end)))

-- Only the boolean `true` is a match.
is_true : Execution → Bool
is_true (boolean b) = b
is_true _ = false

-- The variables of the loop over the rules.
pub record Loop : Type 0 where
  pub matched_any : Bool
  pub outcome : EvalOutcome

unfoldable pub start : Policy → Loop
unfolding decision_from_kind
start p = record {
  matched_any = false;
  outcome = record {
    decision = decision_from_kind p.defaults.decision none;
    matched_rule = none;
    sandbox = false;
    critical = false;
  };
}

-- The intrinsic floor under actions of a critical category.
unfoldable pub apply_floor : Action → EvalOutcome → EvalOutcome
unfolding is_critical is_allow
apply_floor action o =
    if is_critical action
    then (if is_allow o.decision
        then record o {
          critical = true;
          decision = ask floor_reason;
          matched_rule = some floor_rule;
        }
        else record o { critical = true })
    else o

module _ (parse_f64 : Text → Option F64) where
  unfoldable pub apply_cap : Rule → Action → Decision → Decision
  unfolding most_restrictive
  apply_cap rule action d = elim rule.cap [
    | none ↦ d
    | some cap ↦
        if cap_violated parse_f64 cap action then most_restrictive d (ask (cap_reason rule)) else d
  ]

  -- What a matching rule asks for, its cap applied.
  unfoldable pub rule_decision : Rule → Action → Decision
  unfolding apply_cap decision_from_kind
  rule_decision rule action = apply_cap rule action (decision_from_kind rule.decision rule.explain)

  -- The body of the loop for a rule that matches.
  unfoldable pub on_match : Rule → Action → Loop → Loop
  unfolding decision_eq most_restrictive
  on_match rule action l =
      let o = record l.outcome {
        sandbox = l.outcome.sandbox || rule.sandbox;
        critical = l.outcome.critical || rule.critical;
      } in
      let d = rule_decision rule action in
      let combined = most_restrictive o.decision d in
      if not l.matched_any
      then record {
        matched_any = true;
        outcome = record o { decision = d; matched_rule = some rule.id };
      }
      else if not (decision_eq combined o.decision)
      then record l { outcome = record o { decision = combined; matched_rule = some rule.id } }
      else record l { outcome = o }

module _ (cel : Cel) where
  open cel use {Program, compile, execute}

  pub record CompiledPolicy : Type 0 where
    pub policy : Policy
    pub programs : List Program

  compile_rules : List Rule → Result (List Program) PolicyError
  compile_rules [] = ok []
  compile_rules (rule ∷ rules) =
      let rest = compile_rules rules in
      elim (compile rule.when) [
        | ok p ↦ (do ps ← rest; ok (p ∷ ps))
        | err msg ↦ err (invalid_when rule.id msg)
      ]

  -- `CompiledPolicy::compile`
  unfoldable pub compile_policy : Policy → Result CompiledPolicy PolicyError
  unfolding compile_rules
  compile_policy p = do
    programs ← compile_rules p.rules
    ok (record { policy = p; programs = programs })

  -- `CompiledPolicy::from_toml_str`
  unfoldable pub compile_toml :
      (Text → Result Policy Text) → Text → Result CompiledPolicy PolicyError
  unfolding compile_policy from_toml_str
  compile_toml parse_toml s = do policy ← from_toml_str parse_toml s; compile_policy policy

  unfoldable pub rule_matches : Program → Members → Bool
  unfolding is_true
  rule_matches program ctx = is_true (execute program ctx)

module _ (cel : Cel) (parse_f64 : Text → Option F64) where
  open cel use {Program}

  -- The loop over `rules.zip(programs)`.
  unfoldable pub run_rules : Action → Members → List Rule → List Program → Loop → Loop
  unfolding on_match rule_matches
  run_rules action ctx (rule ∷ rules) (program ∷ programs) l =
      run_rules action ctx rules programs
        (if rule_matches cel program ctx then on_match parse_f64 rule action l else l)
  run_rules action ctx _ _ l = l

  unfoldable pub evaluate : CompiledPolicy cel → Action → EvalEnv → EvalOutcome
  unfolding run_rules start apply_floor
  evaluate p action env =
      apply_floor action
        (run_rules action (build_context action env) p.policy.rules p.programs
          (start p.policy)).outcome
