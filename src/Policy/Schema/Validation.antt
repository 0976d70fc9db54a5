-- ===== src/Policy/Schema/Validation.antt =====
-- What the structural validation of crates/guardian-policy/src/schema.rs accepts.
use project_guardian.Common.{
  All-of, refl, ◌≡◌, ◌≢◌, ◌↔◌, List, [], ◌∷◌, Text, ok, All, All-both, member-eq-false, arith,
}
use project_guardian.Policy.Schema.{DecisionKind, Rule, Policy, check_ids, validate_structure}

-- No rule has the id.
abbrev pub IsFresh : Text → List Rule → Type 0
IsFresh id rules = All (λ r. r.id ≢ id) rules

-- No two rules share an id.
abbrev pub Distinct : List Rule → Type 0
Distinct [] = Unit
Distinct (rule ∷ rules) = IsFresh rule.id rules × Distinct rules

check_ids-eq-ok_iff :
    (seen : List Text) (rules : List Rule)
    → (check_ids seen rules ≡ ok tt) ↔ (Distinct rules × All (λ id. IsFresh id rules) seen)
unfolding check_ids
check_ids-eq-ok_iff seen [] = (λ _. (tt, All-of (λ id. IsFresh id []) seen (λ _. tt)), λ _. refl)
check_ids-eq-ok_iff seen (rule ∷ rules) = ground (
  arith,
  member-eq-false rule.id seen,
  check_ids-eq-ok_iff (rule.id ∷ seen) rules,
  All-both (λ id. rule.id ≢ id) (λ id. IsFresh id rules) seen,
)

-- A policy document is accepted exactly when it is of version 1, does not allow by default, and no
-- two of its rules share an id.
pub validate_structure-eq-ok_iff :
    (p : Policy)
    → (validate_structure p ≡ ok tt)
      ↔ ((p.version ≡ 1) × (p.defaults.decision ≢ DecisionKind.allow) × Distinct p.rules)
unfolding validate_structure
validate_structure-eq-ok_iff p = ground (arith, check_ids-eq-ok_iff [] p.rules)
