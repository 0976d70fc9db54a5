-- ===== src/Policy/Verdict/Reorder.antt =====
-- The order of the rules does not change how restrictive an evaluation of
-- crates/guardian-policy/src/engine.rs is, nor its flags.
use mathlib.Core.List.{Perm, Permᴰ}
use mathlib.Core.Logic.{∥∥₁_elim}
use project_guardian.Common.{
  none, ap₂, sym, ℕ, Bool, true, false, ◌||◌, ◌&&◌, ◌==◌, max, Option, List, [], ◌∷◌, ◌≡◌, Text,
  F64, any, refl, ap, ◌∙◌, arith, if◌then◌else◌,
}
use project_guardian.Core.{
  Action, is_critical, Decision, allow, ask, deny, is_allow, restrictiveness, most_restrictive,
}
use project_guardian.Policy.Schema.{Rule}
use project_guardian.Policy.Cel.{Cel}
use project_guardian.Policy.Engine.{
  decision_from_kind, floor_reason, EvalEnv, CompiledPolicy, rule_decision, evaluate,
}
use project_guardian.Policy.Spec.{join, resolve, verdicts}
use project_guardian.Policy.Verdict.{default_of, evaluate_lem, hits}

restrictiveness-floor :
    (c : Bool) (d : Decision) (reason : Text)
    → restrictiveness (if c && is_allow d then ask reason else d)
      ≡ (if c && restrictiveness d == 0 then 1 else restrictiveness d)
unfolding is_allow restrictiveness
restrictiveness-floor true allow reason = refl
restrictiveness-floor true (ask r) reason = refl
restrictiveness-floor true (deny r) reason = refl
restrictiveness-floor false d reason = refl

module _ (parse_f64 : Text → Option F64) (action : Action) where
  level : Rule → ℕ
  level r = restrictiveness (rule_decision parse_f64 r action)

  top : List Rule → ℕ
  top [] = 0
  top (r ∷ rules) = max (level r) (top rules)

  restrictiveness-join :
      (d : Decision) (rules : List Rule)
      → restrictiveness (join d (verdicts parse_f64 action rules))
        ≡ max (restrictiveness d) (top rules)
  unfolding most_restrictive top level
  restrictiveness-join d [] = omega arith
  restrictiveness-join d (r ∷ rules) =
      ground
        (arith, restrictiveness-join (most_restrictive d (rule_decision parse_f64 r action)) rules)

  -- What an evaluation shows of a list of matching rules.
  pub record View : Type 0 where
    none_matches : Bool
    highest : ℕ
    sandbox : Bool
    critical : Bool

  is_empty : List Rule → Bool
  is_empty [] = true
  is_empty (_ ∷ _) = false

  pub view : List Rule → View
  unfolding top level is_empty
  view rules = record {
    none_matches = is_empty rules;
    highest = top rules;
    sandbox = any (λ r. r.sandbox) rules;
    critical = any (λ r. r.critical) rules;
  }

  view-permᴰ : {xs ys : List Rule} → Permᴰ xs ys → view xs ≡ view ys
  unfolding view
  view-permᴰ Permᴰ.nil = refl
  view-permᴰ (Permᴰ.cons e p) = ground (arith, view-permᴰ p)
  view-permᴰ (Permᴰ.swap e f) = ground arith
  view-permᴰ (Permᴰ.trans p q) = view-permᴰ p ∙ view-permᴰ q

  View-set : IsSet View
  View-set = hlevel

  pub view-perm : {xs ys : List Rule} → Perm xs ys → view xs ≡ view ys
  view-perm {xs} {ys} p = ∥∥₁_elim p (View-set (view xs) (view ys)) view-permᴰ

  -- The restrictiveness that a view of the matching rules comes to.
  level_of_view : Decision → View → ℕ
  level_of_view default v =
      let l = if v.none_matches then restrictiveness default else v.highest in
      if is_critical action && l == 0 then 1 else l

  level-floor :
      (default : Decision) (reason : Text) (rules : List Rule)
      → let d = resolve default (verdicts parse_f64 action rules) in
        restrictiveness (if is_critical action && is_allow d then ask reason else d)
        ≡ level_of_view default (view rules)
  unfolding level_of_view view
  level-floor default reason [] = restrictiveness-floor (is_critical action) default reason
  level-floor default reason (r ∷ rules) =
      restrictiveness-floor (is_critical action)
        (resolve default (verdicts parse_f64 action (r ∷ rules))) reason
      ∙ rw (restrictiveness-join (rule_decision parse_f64 r action) rules)

-- Two policies whose matching rules are the same up to their order, and whose defaults are the same,
-- give evaluations that are as restrictive, ask for a sandbox alike and are critical alike.
pub evaluate-perm :
    (cel : Cel) (parse_f64 : Text → Option F64) (p q : CompiledPolicy cel) (action : Action)
    (env : EvalEnv)
    → p.policy.defaults.decision ≡ q.policy.defaults.decision
    → Perm (hits cel parse_f64 p action env) (hits cel parse_f64 q action env)
    → let o = evaluate cel parse_f64 p action env in
      let o' = evaluate cel parse_f64 q action env in
      (restrictiveness o.decision ≡ restrictiveness o'.decision)
      × (o.sandbox ≡ o'.sandbox)
      × (o.critical ≡ o'.critical)
unfolding view default_of
evaluate-perm cel parse_f64 p q action env same perm =
    let (d, s, c) = evaluate_lem cel parse_f64 p action env in
    let (d', s', c') = evaluate_lem cel parse_f64 q action env in
    let v = view-perm parse_f64 action perm in
    (
      ap restrictiveness d
          ∙ level-floor parse_f64 action (default_of p.policy) floor_reason
              (hits cel parse_f64 p action env)
          ∙ ap₂ (level_of_view parse_f64 action) (ap (λ k. decision_from_kind k none) same) v
          ∙ sym (
              ap restrictiveness d'
              ∙ level-floor parse_f64 action (default_of q.policy) floor_reason
                  (hits cel parse_f64 q action env)),
      s ∙ ap (λ w. w.sandbox) v ∙ sym s',
      c ∙ ap (λ w. w.critical || is_critical action) v ∙ sym c',
    )
