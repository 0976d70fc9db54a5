-- ===== src/Vault/Json.antt =====
-- crates/guardian-broker/src/vault.rs: tokenizing and restoring every string of a JSON value.
use project_guardian.Common.{ℕ, Option, Text}
use project_guardian.Core.{Value, string, array, object, Values, nil, cons, Members, end, member}
use project_guardian.Vault.Store.{DataVault, tokenize, detokenize}

module _ (entropy : ℕ → Option Text) (address : ℕ → Text) where
  string_of : Text × DataVault → Value × DataVault
  string_of (s, v) = (string s, v)

  array_of : Values × DataVault → Value × DataVault
  array_of (vs, v) = (array vs, v)

  object_of : Members × DataVault → Value × DataVault
  object_of (ms, v) = (object ms, v)

  cons_to : Value → Values × DataVault → Values × DataVault
  cons_to x (xs, v) = (cons x xs, v)

  member_to : Text → Value → Members × DataVault → Members × DataVault
  member_to k x (ms, v) = (member k x ms, v)

  unfoldable mutual
    unfolding string_of array_of object_of cons_to member_to

    -- `tokenize_json`: the vault grows from string to string.
    pub tokenize_json : Value → DataVault → Value × DataVault
    tokenize_json (string s) v = string_of (tokenize entropy address s v)
    tokenize_json (array xs) v = array_of (tokenize_values xs v)
    tokenize_json (object ms) v = object_of (tokenize_members ms v)
    tokenize_json other v = (other, v)

    pub tokenize_values : Values → DataVault → Values × DataVault
    tokenize_values nil v = (nil, v)
    tokenize_values (cons x xs) v =
        let (x', v') = tokenize_json x v in cons_to x' (tokenize_values xs v')

    pub tokenize_members : Members → DataVault → Members × DataVault
    tokenize_members end v = (end, v)
    tokenize_members (member k x ms) v =
        let (x', v') = tokenize_json x v in member_to k x' (tokenize_members ms v')

unfoldable mutual
  -- `detokenize_json`
  pub detokenize_json : DataVault → Value → Value
  detokenize_json v (string s) = string (detokenize v s)
  detokenize_json v (array xs) = array (detokenize_values v xs)
  detokenize_json v (object ms) = object (detokenize_members v ms)
  detokenize_json v other = other

  pub detokenize_values : DataVault → Values → Values
  detokenize_values v nil = nil
  detokenize_values v (cons x xs) = cons (detokenize_json v x) (detokenize_values v xs)

  pub detokenize_members : DataVault → Members → Members
  detokenize_members v end = end
  detokenize_members v (member k x ms) = member k (detokenize_json v x) (detokenize_members v ms)
