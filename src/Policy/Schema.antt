-- ===== src/Policy/Schema.antt =====
-- crates/guardian-policy/src/schema.rs: the policy document and its structural validation. The
-- informational `meta` table, which nothing reads, is left out.
pub mod Validation
use project_guardian.Common.{
  ℕ, ℤ, Bool, true, false, Option, List, [], ◌∷◌, Text, F64, Result, ok, err, ◌>>=◌, ◌>>◌, member,
  not, ◌==◌, if◌then◌else◌,
}
use project_guardian.Core.{ActionKind}

pub data DecisionKind : Type 0 where
  allow ask deny : DecisionKind

pub record Cap : Type 0 where
  pub amount_max : Option F64
  pub currency : Option Text
  pub count_max : Option ℤ

pub record Rule : Type 0 where
  pub id : Text
  pub when : Text
  pub decision : DecisionKind
  pub explain : Option Text
  pub critical : Bool
  pub sandbox : Bool
  pub cap : Option Cap
  pub tags : List Text

pub record Defaults : Type 0 where
  pub decision : DecisionKind

pub record Policy : Type 0 where
  pub version : ℕ
  pub role : Text
  pub defaults : Defaults
  pub tools : List (Text × ActionKind)
  pub rules : List Rule

pub data PolicyError : Type 0 where
  toml : Text → PolicyError
  unsupported_version : ℕ → PolicyError
  permissive_default : PolicyError
  duplicate_rule_id : Text → PolicyError
  invalid_when : Text → Text → PolicyError

unfoldable pub is_allow_kind : DecisionKind → Bool
is_allow_kind allow = true
is_allow_kind _ = false

-- The loop over the rules; `seen` holds the ids so far.
check_ids : List Text → List Rule → Result (Unit {0}) PolicyError
unfolding member
check_ids seen [] = ok tt
check_ids seen (rule ∷ rules) =
    let rest = check_ids (rule.id ∷ seen) rules in
    if member rule.id seen then err (duplicate_rule_id rule.id) else rest

unfoldable pub validate_structure : Policy → Result (Unit {0}) PolicyError
unfolding check_ids is_allow_kind
validate_structure p =
    if not (p.version == 1)
    then err (unsupported_version p.version)
    else if is_allow_kind p.defaults.decision
    then err permissive_default
    else check_ids [] p.rules

-- The parser of TOML documents into this schema is a parameter.
module _ (parse_toml : Text → Result Policy Text) where
  parsed : Text → Result Policy PolicyError
  parsed s = elim (parse_toml s) [ ok p ↦ ok p | err e ↦ err (toml e) ]

  -- `Policy::from_toml_str`
  unfoldable pub from_toml_str : Text → Result Policy PolicyError
  unfolding parsed
  from_toml_str s = do policy ← parsed s; validate_structure policy; ok policy
