-- ===== src/Vault/Store.antt =====
-- crates/guardian-broker/src/vault.rs: the vault's tables, tokenizing and restoring. `drawn` counts the
-- random ids taken so far from the process's source of randomness.
pub mod Texts
pub mod RoundTrip
use mathlib.Core.Option
use project_guardian.Common.{
  ◌-◌, ℕ, zero, suc, ◌+◌, ◌/◌, ◌%◌, not, Option, none, some, unwrap_or, List, [], ◌∷◌, ◌++◌, Text,
  length, drop, ltb, leb, member, trim, Map, lookup, put, if◌then◌else◌, ◌&&◌, starts_with,
}
use project_guardian.Vault.Spans.{Span, slice, candidates}

pub record DataVault : Type 0 where
  pub known : List Text
  pub by_id : Map Text
  pub by_value : Map Text
  pub drawn : ℕ

unfoldable pub new : DataVault
new = record { known = []; by_id = []; by_value = []; drawn = 0 }

unfoldable pub token_count : DataVault → ℕ
token_count v = length v.by_id

abbrev pub opening : Text
opening = b'[' ∷ b'[' ∷ b'G' ∷ b'D' ∷ b'N' ∷ b'-' ∷ []

abbrev pub closing : Text
closing = b']' ∷ b']' ∷ []

unfoldable pub learn : Text → DataVault → DataVault
unfolding trim member
learn value v =
    let t = trim value in
    if leb 4 (length t) && not (member t v.known) then record v { known = v.known ++ t ∷ [] } else v

unfoldable pub hex_digit : ℕ → ℕ
hex_digit n = if ltb n 10 then b'0' + n else b'a' + (n - 10)

unfoldable pub hex_of : Text → Text
unfolding hex_digit
hex_of [] = []
hex_of (b ∷ s) = hex_digit (b / 16) ∷ hex_digit (b % 16) ∷ hex_of s

-- `random_id` from what the generator gave: 16 bytes, or nothing, when a marked id is made of an address.
unfoldable pub random_id : Option Text → Text → Text
unfolding hex_of
random_id (some b) address = hex_of b
random_id none address = b'x' ∷ address

-- The source of randomness, and the addresses that stand in where it fails, are parameters.
module _ (entropy : ℕ → Option Text) (address : ℕ → Text) where
  abbrev pub id_of : ℕ → Text
  id_of n = random_id (entropy n) (address n)

  wrap : Text → Text
  wrap id = opening ++ (id ++ closing)

  mint : Text → Option Text → DataVault → Text × DataVault
  unfolding wrap put
  mint value (some id) v = (wrap id, v)
  mint value none v =
      let id = id_of v.drawn in
      (
        wrap id,
        record v {
          by_id = put id value v.by_id;
          by_value = put value id v.by_value;
          drawn = v.drawn + 1;
        },
      )

  -- `token_for`
  unfoldable pub token_for : Text → DataVault → Text × DataVault
  unfolding mint lookup
  token_for value v = mint value (lookup value v.by_value) v

  -- The loop of `tokenize`: `pos` is where the text that is not yet written begins.
  unfoldable pub replace : Text → List Span → ℕ → DataVault → Text × DataVault
  unfolding token_for
  replace text [] pos v = (drop pos text, v)
  replace text ((s, e) ∷ spans) pos v =
      let skipped = replace text spans pos v in
      let (token, v') = token_for (slice text s e) v in
      let (rest, v'') = replace text spans e v' in
      if ltb s pos then skipped else (slice text pos s ++ (token ++ rest), v'')

  unfoldable pub tokenize : Text → DataVault → Text × DataVault
  unfolding replace candidates
  tokenize text v = replace text (candidates v.known text) 0 v

-- `s.find(p)`, as what stands before the first occurrence and behind it
unfoldable pub split_at_first : Text → Text → Option (Text × Text)
unfolding starts_with
split_at_first p [] = if starts_with [] p then some ([], []) else none
split_at_first p (c ∷ s) =
    let rest = Option.map (λ (w : Text × Text). (c ∷ w.0, w.1)) (split_at_first p s) in
    if starts_with (c ∷ s) p then some ([], drop (length p) (c ∷ s)) else rest

-- The loop of `detokenize`; a round moves behind an opening mark.
unfoldable pub restore : ℕ → Map Text → Text → Text
unfolding split_at_first lookup
restore zero by_id rest = rest
restore (suc fuel) by_id rest = elim (split_at_first opening rest) [
  | none ↦ rest
  | some (before, after) ↦ elim (split_at_first closing after) [
    | none ↦ before ++ (opening ++ after)
    | some (id, behind) ↦
        before
        ++ (unwrap_or (lookup id by_id) (opening ++ (id ++ closing)) ++ restore fuel by_id behind)
  ]
]

unfoldable pub detokenize : DataVault → Text → Text
unfolding restore
detokenize v text = restore (suc (length text)) v.by_id text
