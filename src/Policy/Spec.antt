-- ===== src/Policy/Spec.antt =====
-- What an evaluation by crates/guardian-policy/src/engine.rs should give, said without its loop: the
-- rules that match, and the most restrictive of what they ask for.
use project_guardian.Common.{
  true, false, ◌||◌, Option, List, [], ◌∷◌, ◌≡◌, inl, inr, ◌∙◌, Text, F64, any, if◌then◌else◌,
  arith, refl, Bool-cases,
}
use project_guardian.Core.{Members, Action, Decision, most_restrictive, decision_eq_iff}
use project_guardian.Policy.Schema.{Rule}
use project_guardian.Policy.Cel.{Cel}
use project_guardian.Policy.Engine.{rule_matches, rule_decision, Loop, on_match, run_rules}

-- The most restrictive of the decisions, the first among equals; the default where there is none.
abbrev pub join : Decision → List Decision → Decision
join d [] = d
join d (e ∷ es) = join (most_restrictive d e) es

abbrev pub resolve : Decision → List Decision → Decision
resolve default [] = default
resolve default (d ∷ ds) = join d ds

module _ (cel : Cel) (ctx : Members) where
  open cel use {Program}

  -- The rules whose condition is true.
  abbrev pub matching : List Rule → List Program → List Rule
  matching (rule ∷ rules) (program ∷ programs) =
      let rest = matching rules programs in
      if rule_matches cel program ctx then rule ∷ rest else rest
  matching _ _ = []

module _ (parse_f64 : Text → Option F64) (action : Action) where
  -- The loop over rules that all match.
  abbrev pub absorb : List Rule → Loop → Loop
  absorb [] l = l
  absorb (rule ∷ rules) l = absorb rules (on_match parse_f64 rule action l)

  abbrev pub verdicts : List Rule → List Decision
  verdicts [] = []
  verdicts (rule ∷ rules) = rule_decision parse_f64 rule action ∷ verdicts rules

  pub decision-on_match :
      (rule : Rule) (l : Loop)
      → (on_match parse_f64 rule action l).outcome.decision ≡ (
          if l.matched_any
          then most_restrictive l.outcome.decision (rule_decision parse_f64 rule action)
          else rule_decision parse_f64 rule action)
  unfolding on_match
  decision-on_match rule l = ground (
    arith,
    decision_eq_iff (most_restrictive l.outcome.decision (rule_decision parse_f64 rule action))
        l.outcome.decision,
  )

  pub matched_any-on_match :
      (rule : Rule) (l : Loop) → (on_match parse_f64 rule action l).matched_any ≡ true
  unfolding on_match
  matched_any-on_match rule l = ground arith

  decision-absorb :
      (rules : List Rule) (l : Loop)
      → l.matched_any ≡ true
      → (absorb rules l).outcome.decision ≡ join l.outcome.decision (verdicts rules)
  decision-absorb [] l h = refl
  decision-absorb (rule ∷ rules) l h =
      decision-absorb rules (on_match parse_f64 rule action l) (matched_any-on_match rule l)
      ∙ rw (decision-on_match, h)

  pub decision-absorb_start :
      (rules : List Rule) (l : Loop)
      → l.matched_any ≡ false
      → (absorb rules l).outcome.decision ≡ resolve l.outcome.decision (verdicts rules)
  decision-absorb_start [] l h = refl
  decision-absorb_start (rule ∷ rules) l h =
      decision-absorb rules (on_match parse_f64 rule action l) (matched_any-on_match rule l)
      ∙ rw (decision-on_match, h)

  flags-on_match :
      (rule : Rule) (l : Loop)
      → ((on_match parse_f64 rule action l).outcome.sandbox ≡ (l.outcome.sandbox || rule.sandbox))
        × ((on_match parse_f64 rule action l).outcome.critical
            ≡ (l.outcome.critical || rule.critical))
  unfolding on_match
  flags-on_match rule l = ground arith

  pub flags-absorb :
      (rules : List Rule) (l : Loop)
      → ((absorb rules l).outcome.sandbox ≡ (l.outcome.sandbox || any (λ r. r.sandbox) rules))
        × ((absorb rules l).outcome.critical ≡ (l.outcome.critical || any (λ r. r.critical) rules))
  flags-absorb [] l = ground arith
  flags-absorb (rule ∷ rules) l =
      ground (arith, flags-on_match rule l, flags-absorb rules (on_match parse_f64 rule action l))

module _ (cel : Cel) (parse_f64 : Text → Option F64) (action : Action) (ctx : Members) where
  open cel use {Program}

  -- Rules that do not match leave no trace.
  pub run_rules-eq-absorb :
      (rules : List Rule) (programs : List Program) (l : Loop)
      → run_rules cel parse_f64 action ctx rules programs l
        ≡ absorb parse_f64 action (matching cel ctx rules programs) l
  unfolding run_rules
  run_rules-eq-absorb [] programs l = refl
  run_rules-eq-absorb (rule ∷ rules) [] l = refl
  run_rules-eq-absorb (rule ∷ rules) (program ∷ programs) l =
      elim (Bool-cases (rule_matches cel program ctx)) [
        | inl e ↦ rw e (run_rules-eq-absorb rules programs (on_match parse_f64 rule action l))
        | inr e ↦ rw e (run_rules-eq-absorb rules programs l)
      ]
