-- ===== src/Policy/Verdict.antt =====
-- What the evaluation of crates/guardian-policy/src/engine.rs guarantees: the decision that comes out,
-- and when an action is allowed.
pub mod Provenance
pub mod Reorder
use project_guardian.Common.{
  inr, inl, false, Exists, ◌≤◌, ℕ, Bool, true, ◌||◌, ◌&&◌, not, Option, none, some, List, [], ◌∷◌,
  ◌≡◌, ◌≢◌, ◌↔◌, Text, F64, any, All, if◌then◌else◌, arith, refl, Result, ok,
}
use project_guardian.Core.{
  deny, restrictiveness, Action, is_critical, Decision, allow, ask, is_allow, most_restrictive,
}
use project_guardian.Policy.Schema.{DecisionKind, Rule, Policy, validate_structure, from_toml_str}
use project_guardian.Policy.Cel.{Cel}
use project_guardian.Policy.Caps.{cap_violated}
use project_guardian.Policy.Engine.{
  EvalEnv, CompiledPolicy, compile_policy, compile_toml, build_context, decision_from_kind,
  apply_cap, rule_decision, floor_reason, start, apply_floor, evaluate,
}
use project_guardian.Policy.Spec.{
  join, resolve, matching, verdicts, decision-absorb_start, flags-absorb, run_rules-eq-absorb,
}

abbrev pub default_of : Policy → Decision
unfolding decision_from_kind
default_of p = decision_from_kind p.defaults.decision none

-- The rule carries no cap that the action violates.
abbrev pub within_cap : (Text → Option F64) → Action → Rule → Bool
within_cap parse_f64 action rule = elim rule.cap [
  | none ↦ true
  | some cap ↦ not (cap_violated parse_f64 cap action)
]

join-eq-allow_iff :
    (d : Decision) (ds : List Decision)
    → (join d ds ≡ allow) ↔ ((d ≡ allow) × All (λ e. e ≡ allow) ds)
unfolding most_restrictive
join-eq-allow_iff d [] = ground arith
join-eq-allow_iff d (e ∷ es) = ground (arith, join-eq-allow_iff (most_restrictive d e) es)

resolve-eq-allow_iff :
    (d : Decision) (ds : List Decision)
    → d ≢ allow
    → (resolve d ds ≡ allow) ↔ ((ds ≢ []) × All (λ e. e ≡ allow) ds)
resolve-eq-allow_iff d [] h = ground arith
resolve-eq-allow_iff d (e ∷ es) h = ground (arith, join-eq-allow_iff e es)

-- A rule of a policy asks for `allow` exactly when it says so and its cap is respected.
rule_decision-eq-allow_iff :
    (parse_f64 : Text → Option F64) (rule : Rule) (action : Action)
    → (rule_decision parse_f64 rule action ≡ allow)
      ↔ ((rule.decision ≡ DecisionKind.allow) × (within_cap parse_f64 action rule ≡ true))
unfolding rule_decision apply_cap decision_from_kind most_restrictive
rule_decision-eq-allow_iff parse_f64 rule action = ground arith

-- A policy that was loaded does not allow by default.
default-ne-allow :
    (cel : Cel) (parse_toml : Text → Result Policy Text) (s : Text) {p : CompiledPolicy cel}
    → compile_toml cel parse_toml s ≡ ok p
    → default_of p.policy ≢ allow
unfolding compile_toml compile_policy from_toml_str validate_structure decision_from_kind
default-ne-allow cel parse_toml s h = ground arith

module _ (parse_f64 : Text → Option F64) (action : Action) where
  -- The rule says `allow` and its cap is respected.
  abbrev pub Grants : Rule → Type 0
  Grants r = (r.decision ≡ DecisionKind.allow) × (within_cap parse_f64 action r ≡ true)

  All-verdicts :
      (rules : List Rule)
      → All (λ e. e ≡ allow) (verdicts parse_f64 action rules) ↔ All Grants rules
  All-verdicts [] = ground arith
  All-verdicts (r ∷ rules) =
      ground (arith, rule_decision-eq-allow_iff parse_f64 r action, All-verdicts rules)

  resolve-verdicts :
      (d : Decision) (rules : List Rule)
      → d ≢ allow
      → (resolve d (verdicts parse_f64 action rules) ≡ allow) ↔ ((rules ≢ []) × All Grants rules)
  resolve-verdicts d [] h = ground arith
  resolve-verdicts d (r ∷ rules) h = ground (
    arith,
    All-verdicts (r ∷ rules),
    join-eq-allow_iff (rule_decision parse_f64 r action) (verdicts parse_f64 action rules),
  )

  le-join : (d : Decision) (ds : List Decision) → restrictiveness d ≤ restrictiveness (join d ds)
  unfolding most_restrictive
  le-join d [] = omega arith
  le-join d (e ∷ es) = ground (arith, le-join (most_restrictive d e) es)

  deny-rule_decision :
      (r : Rule)
      → r.decision ≡ DecisionKind.deny
      → restrictiveness (rule_decision parse_f64 r action) ≡ 2
  unfolding rule_decision decision_from_kind apply_cap most_restrictive
  deny-rule_decision r h = ground arith

  deny-join :
      (d : Decision) (rules : List Rule)
      → Exists (λ r. r.decision ≡ DecisionKind.deny) rules
      → 2 ≤ restrictiveness (join d (verdicts parse_f64 action rules))
  unfolding most_restrictive
  deny-join d (r ∷ rules) (inl h) = ground (
    arith,
    deny-rule_decision r h,
    le-join (most_restrictive d (rule_decision parse_f64 r action))
        (verdicts parse_f64 action rules),
  )
  deny-join d (r ∷ rules) (inr h) =
      deny-join (most_restrictive d (rule_decision parse_f64 r action)) rules h
  deny-join d [] h = elim h [ ]

  deny-resolve :
      (d : Decision) (rules : List Rule)
      → Exists (λ r. r.decision ≡ DecisionKind.deny) rules
      → 2 ≤ restrictiveness (resolve d (verdicts parse_f64 action rules))
  deny-resolve d [] h = elim h [ ]
  deny-resolve d (r ∷ rules) (inl h) = ground (
    arith,
    deny-rule_decision r h,
    le-join (rule_decision parse_f64 r action) (verdicts parse_f64 action rules),
  )
  deny-resolve d (r ∷ rules) (inr h) = deny-join (rule_decision parse_f64 r action) rules h

restrictiveness-eq-deny :
    (d : Decision) → 2 ≤ restrictiveness d → (reason : Text) × (d ≡ deny reason)
unfolding restrictiveness
restrictiveness-eq-deny allow h = absurd (omega arith)
restrictiveness-eq-deny (ask r) h = absurd (omega arith)
restrictiveness-eq-deny (deny r) h = (r, refl)

module _ (cel : Cel) (parse_f64 : Text → Option F64) (p : CompiledPolicy cel) (action : Action)
    (env : EvalEnv) where
  -- The rules that match the action.
  abbrev pub hits : List Rule
  hits = matching cel (build_context action env) p.policy.rules p.programs

  -- The evaluation gives the most restrictive of what the matching rules ask for, or the default
  -- where none matches, floored to a review if that would allow an action of a critical category;
  -- it asks for a sandbox if some matching rule does, and is critical if some matching rule or the
  -- action is.
  pub evaluate_lem :
      let o = evaluate cel parse_f64 p action env in
      let d = resolve (default_of p.policy) (verdicts parse_f64 action hits) in
      (o.decision ≡ (if is_critical action && is_allow d then ask floor_reason else d))
      × (o.sandbox ≡ any (λ r. r.sandbox) hits)
      × (o.critical ≡ (any (λ r. r.critical) hits || is_critical action))
  unfolding evaluate apply_floor start decision_from_kind
  evaluate_lem =
      let run =
        run_rules-eq-absorb cel parse_f64 action (build_context action env) p.policy.rules
          p.programs (start p.policy) in
      rw run (
        ground (
          arith,
          decision-absorb_start parse_f64 action hits (start p.policy) refl,
          flags-absorb parse_f64 action hits (start p.policy),
        ))

  -- An action is allowed exactly when it is of no critical category, some rule matches, and every
  -- rule that matches says `allow` with its cap respected, under a policy that was loaded.
  pub evaluate-eq-allow_iff :
      (parse_toml : Text → Result Policy Text) (s : Text)
      → compile_toml cel parse_toml s ≡ ok p
      → ((evaluate cel parse_f64 p action env).decision ≡ allow)
        ↔ ((is_critical action ≡ false) × (hits ≢ []) × All (Grants parse_f64 action) hits)
  unfolding is_allow
  evaluate-eq-allow_iff parse_toml s h = ground (
    arith,
    evaluate_lem,
    resolve-verdicts parse_f64 action (default_of p.policy) hits
        (default-ne-allow cel parse_toml s h),
  )

  -- An action of a critical category is never allowed, whatever the policy, and is marked critical.
  pub evaluate-critical :
      is_critical action ≡ true
      → let o = evaluate cel parse_f64 p action env in (o.decision ≢ allow) × (o.critical ≡ true)
  unfolding is_allow
  evaluate-critical h = ground (arith, evaluate_lem)

  -- One matching rule that says `deny` is enough for the action to be denied.
  pub evaluate-deny_wins :
      Exists (λ r. r.decision ≡ DecisionKind.deny) hits
      → (reason : Text) × ((evaluate cel parse_f64 p action env).decision ≡ deny reason)
  unfolding is_allow
  evaluate-deny_wins h =
      let (reason, e) =
        restrictiveness-eq-deny (resolve (default_of p.policy) (verdicts parse_f64 action hits))
          (deny-resolve parse_f64 action (default_of p.policy) hits h) in
      (reason, ground (arith, evaluate_lem, e))
