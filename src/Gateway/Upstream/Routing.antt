-- ===== src/Gateway/Upstream/Routing.antt =====
-- Where the proxy of crates/guardian-mcp-gateway/src/lib.rs, module `upstream`, sends a namespaced tool, and
-- which answer it takes.
use project_guardian.Common.{
  is_some, none, err, lookup, lookup, err, All, Map, Option, List, ℤ, bytes, inr, inl, ◌⊎◌, ℕ, ◌<◌,
  Bool, true, false, some, [], ◌∷◌, ◌++◌, Text, length, contains, starts_with, ◌≡◌, ◌≢◌, ◌↔◌, refl,
  arith, Bool-cases, drop,
}
use project_guardian.Vault.Store.{split_at_first}
use project_guardian.Gateway.Upstream.{
  ToolCall, response_of, is_response, Server, Value, forward_to, forward, await_response, sep,
  namespaced_name, fall_back, route_to, route,
}

-- No separator begins in the label, not even with its last character.
abbrev pub IsClean : Text → Type 0
IsClean label = contains (label ++ (b'_' ∷ [])) sep ≡ false

starts_in :
    (label tool : Text) (c : ℕ)
    → starts_with ((c ∷ label) ++ (sep ++ tool)) sep ≡ starts_with ((c ∷ label) ++ (b'_' ∷ [])) sep
unfolding starts_with
starts_in [] tool c = refl
starts_in (d ∷ label) tool c = refl

-- What the name of a label and a tool is split into: the two, or something within the label.
Splits : Text → Text → Type 0
Splits label tool =
    (IsClean label × (split_at_first sep (label ++ (sep ++ tool)) ≡ some (label, tool)))
    ⊎ ((contains (label ++ (b'_' ∷ [])) sep ≡ true)
        × ((front : Text) × (back : Text) × (split_at_first sep (label ++ (sep ++ tool))
              ≡ some (front, back))
            × (length front < length label)))

Splits-empty : (tool : Text) → Splits [] tool
unfolding Splits split_at_first contains starts_with
Splits-empty tool = inl (refl, refl)

Splits-here :
    (label tool : Text) (c : ℕ)
    → starts_with ((c ∷ label) ++ (b'_' ∷ [])) sep ≡ true
    → Splits (c ∷ label) tool
unfolding Splits split_at_first contains
Splits-here label tool c e = inr (
  rw e refl,
  (
    [],
    drop (length sep) ((c ∷ label) ++ (sep ++ tool)),
    rw (starts_in label tool c, e) refl,
    omega arith,
  ),
)

Splits-later :
    (label tool : Text) (c : ℕ)
    → starts_with ((c ∷ label) ++ (b'_' ∷ [])) sep ≡ false
    → Splits label tool
    → Splits (c ∷ label) tool
unfolding Splits split_at_first contains
Splits-later label tool c e (inl (clean, split)) =
    inl (rw (e, clean) refl, rw (starts_in label tool c, e, split) refl)
Splits-later label tool c e (inr (dirty, (front, back, split, short))) = inr (
  rw (e, dirty) refl,
  (c ∷ front, back, rw (starts_in label tool c, e, split) refl, omega (arith, short)),
)

split_lem : (label tool : Text) → Splits label tool
split_lem [] tool = Splits-empty tool
split_lem (c ∷ label) tool = elim (Bool-cases (starts_with ((c ∷ label) ++ (b'_' ∷ [])) sep)) [
  | inl e ↦ Splits-here label tool c e
  | inr e ↦ Splits-later label tool c e (split_lem label tool)
]

-- A clean label is what stands before the separator.
pub split_at_first-IsClean :
    (label tool : Text)
    → IsClean label
    → split_at_first sep (label ++ (sep ++ tool)) ≡ some (label, tool)
unfolding Splits
split_at_first-IsClean label tool clean = elim (split_lem label tool) [
  | inl (_, split) ↦ split
  | inr (dirty, _) ↦ ground (arith, clean, dirty)
]

route_to-short :
    (known : Text → Bool) (name front back label tool : Text)
    → length front < length label
    → route_to known name (some (front, back)) ≢ some (label, tool)
unfolding route_to fall_back
route_to-short known name front back label tool short e = elim (Bool-cases (known front)) [
  | inl k ↦ ground (arith, rw k at e)
  | inr k ↦ ground (arith, rw k at e)
]

-- The name that is advertised for a tool of a labelled server routes back to that server and tool
-- exactly when no separator begins in the label, not even with its last character.
pub route-namespaced_name_iff :
    (label tool : Text) (known : Text → Bool)
    → label ≢ []
    → known label ≡ true
    → (route (namespaced_name label tool) known ≡ some (label, tool))
      ↔ (contains (label ++ (b'_' ∷ [])) sep ≡ false)
unfolding route route_to namespaced_name Splits fall_back
route-namespaced_name_iff [] tool known named k = absurd (named refl)
route-namespaced_name_iff (c ∷ label) tool known named k = elim (split_lem (c ∷ label) tool) [
  | inl (clean, split) ↦ rw (split, k) ((λ e. clean), (λ e. refl))
  | inr (dirty, (front, back, split, short)) ↦ (
    (λ e. absurd (route_to-short known _ front back (c ∷ label) tool short (rw split at e))),
    λ clean. ground (arith, clean, dirty),
  )
]

-- The line is not the response to the request.
abbrev pub IsNoise : ℤ → Option Value → Type 0
IsNoise id none = Unit {0}
IsNoise id (some v) = is_response id v ≡ false

-- A request takes the first response with its id, past all lines that are not JSON or have another
-- id, and leaves the later lines; without such a response it fails once the server closes.
pub await_response-skips :
    (id : ℤ) (noise : List (Option Value)) (v : Value) (lines : List (Option Value))
    → All (IsNoise id) noise
    → is_response id v ≡ true
    → (await_response id (noise ++ (some v ∷ lines)) ≡ (response_of v, lines))
      × (await_response id noise ≡ (err (bytes "upstream closed the connection"), []))
unfolding await_response
await_response-skips id [] v lines noisy e = (rw e refl, refl)
await_response-skips id (none ∷ noise) v lines (_, noisy) e =
    await_response-skips id noise v lines noisy e
await_response-skips id (some u ∷ noise) v lines (other, noisy) e =
    let (f, g) = await_response-skips id noise v lines noisy e in
    (rw (other, f) refl, rw (other, g) refl)

-- A call of a tool under its advertised name reaches the labelled server that has it, under the tool's
-- own name and with the same arguments, where no separator begins in the label.
pub forward-namespaced_name :
    (servers : Map Server) (label tool : Text) (server : Server) (call : ToolCall)
    → label ≢ []
    → lookup label servers ≡ some server
    → IsClean label
    → forward servers (record call { tool = namespaced_name label tool })
      ≡ server.forward
          (record { tool = tool; args = call.args; kind = none; capability = none; session = none })
unfolding forward forward_to
forward-namespaced_name servers label tool server call named held clean =
    let known : Text → Bool = λ l. is_some (lookup l servers) in
    rw ((route-namespaced_name_iff label tool known named (rw held refl)).1 clean, forward_to, held)
      refl
