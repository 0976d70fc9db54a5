-- ===== src/Cli/Brokered.antt =====
-- crates/guardian-cli/src/main.rs: `BrokeredUpstream`, which puts the broker's token into a call that is
-- forwarded.
use mathlib.Core.Option
use project_guardian.Common.{
  ap, Bool, ◌∙◌, some, true, is_some, false, Map, lookup, err, [], inl, inr, ◌⊎◌, Bool-cases,
  Option-cases, none, unwrap_or, List, Text, Result, member, text_eq, text_eq_iff, if◌then◌else◌,
  ◌≡◌, refl, arith,
}
use project_guardian.Core.{null, get, string, Value, object, Members, end, find}
use project_guardian.Broker.Store.{Broker, default_field, inject, token_for}
use project_guardian.Broker.Store.Injection.{IsFieldable, inject_as-get, inject_as_refused}
use project_guardian.Gateway.Call.{ToolCall}
use project_guardian.Gateway.Upstream.{
  sep, Server, forward, route, route_to, fall_back, forward_to, unrouted,
}
use project_guardian.Vault.Store.{split_at_first}

-- `Map::remove`
remove_key : Text → Members → Members
unfolding text_eq
remove_key k end = end
remove_key k (Members.member j v ms) =
    let rest = remove_key k ms in if text_eq j k then rest else Members.member j v rest

unfoldable pub scrubbed : Value → Value
unfolding remove_key
scrubbed (object ms) = object (remove_key default_field ms)
scrubbed v = v

-- The namespace label, or the whole name.
unfoldable pub target_of : Text → Text
unfolding split_at_first
target_of tool =
    unwrap_or (Option.map (λ (parts : Text × Text). parts.0) (split_at_first sep tool)) tool

unfoldable pub brokered_args : Broker → List Text → Text → Value → Value
unfolding inject member scrubbed
brokered_args broker targets target args =
    if member target targets then (inject broker target (scrubbed args)).1 else scrubbed args

-- `BrokeredUpstream::forward`
unfoldable pub forward_with :
    Broker → List Text → (ToolCall → Result Value Text) → ToolCall → Result Value Text
unfolding brokered_args target_of
forward_with broker targets inner call =
    inner (record call { args = brokered_args broker targets (target_of call.tool) call.args })

find-remove_key : (k : Text) (ms : Members) → find k (remove_key k ms) ≡ none
unfolding find remove_key
find-remove_key k end = refl
find-remove_key k (Members.member j v ms) = ground (arith, text_eq_iff j k, find-remove_key k ms)

find-remove_key_other :
    (k j : Text) (ms : Members) → text_eq k j ≡ false → find j (remove_key k ms) ≡ find j ms
unfolding find remove_key
find-remove_key_other k j end e = refl
find-remove_key_other k j (Members.member i v ms) e =
    ground
      (arith, text_eq_iff i k, text_eq_iff i j, text_eq_iff k j, e, find-remove_key_other k j ms e)

get-scrubbed :
    (args : Value) (j : Text)
    → get j (scrubbed args) ≡ (if text_eq default_field j then none else get j args)
unfolding get scrubbed
get-scrubbed (object ms) j = elim (Bool-cases (text_eq default_field j)) [
  | inl e ↦ ground (arith, e, text_eq_iff default_field j, find-remove_key default_field ms)
  | inr e ↦ rw e (find-remove_key_other default_field j ms e)
]
get-scrubbed _ j = ground arith

scrubbed-IsFieldable : (args : Value) → IsFieldable args → IsFieldable (scrubbed args)
unfolding scrubbed
scrubbed-IsFieldable null f = tt
scrubbed-IsFieldable (object ms) f = tt
scrubbed-IsFieldable _ f = absurd f

scrubbed_field :
    (args : Value) (j : Text) (v : Value)
    → (if text_eq default_field j then some v else get j (scrubbed args))
      ≡ (if text_eq default_field j then some v else get j args)
scrubbed_field args j v = elim (Bool-cases (text_eq default_field j)) [
  | inl e ↦ rw e refl
  | inr e ↦ rw e (get-scrubbed args j ∙ rw e refl)
]

inject-eq :
    (broker : Broker) (target : Text) (v : Value)
    → token_for broker target ≡ none
    → (inject broker target v).1 ≡ v
unfolding inject
inject-eq broker target v n =
    ap (λ (r : Bool × Value). r.1) (inject_as_refused broker target v default_field (inl n))

get-inject :
    (broker : Broker) (target : Text) (v : Value) (token j : Text)
    → token_for broker target ≡ some token
    → IsFieldable v
    → get j (inject broker target v).1
      ≡ (if text_eq default_field j then some (string token) else get j v)
unfolding inject
get-inject broker target v token j h f = (inject_as-get broker target v default_field token j h f).1

brokered_args-get :
    (broker : Broker) (targets : List Text) (target : Text) (args : Value) (j : Text)
    → IsFieldable args
    → get j (brokered_args broker targets target args) ≡ (
        if text_eq default_field j
        then (if member target targets then Option.map string (token_for broker target) else none)
        else get j args)
unfolding brokered_args
brokered_args-get broker targets target args j fieldable =
    elim (Bool-cases (member target targets)) [
      | inr e ↦ rw e (get-scrubbed args j)
      | inl e ↦ rw e (elim (Option-cases (token_for broker target)) [
        | inl n ↦ rw (n, inject-eq broker target (scrubbed args) n) (get-scrubbed args j)
        | inr (token, h) ↦ rw h (
            get-inject broker target (scrubbed args) token j h (scrubbed-IsFieldable args fieldable)
            ∙ scrubbed_field args j (string token))
      ])
    ]

-- A call whose arguments are null or an object is forwarded as it is except for its arguments, in which the
-- credential field is the token that the broker holds for the call's target, what stands before the first
-- separator of its tool or else the whole tool, if that is a registered one, and is absent otherwise,
-- whatever the agent supplied; every other field is the agent's.
pub forward_with-get :
    (broker : Broker) (targets : List Text) (inner : ToolCall → Result Value Text) (call : ToolCall)
    (j : Text)
    → IsFieldable call.args
    → let target =
        unwrap_or
          (Option.map (λ (parts : Text × Text). parts.0) (split_at_first sep call.tool))
          call.tool in
      let args = brokered_args broker targets target call.args in
      (forward_with broker targets inner call ≡ inner (record call { args = args }))
      × (get j args ≡ (
          if text_eq default_field j
          then (if member target targets then Option.map string (token_for broker target) else none)
          else get j call.args))
unfolding forward_with target_of
forward_with-get broker targets inner call j fieldable =
    (refl, brokered_args-get broker targets (target_of call.tool) call.args j fieldable)

known_of :
    (servers : Map Server) (label : Text) (server : Server)
    → lookup label servers ≡ some server
    → is_some (lookup label servers) ≡ true
known_of servers label server held = rw held refl

-- A call whose target is a registered upstream goes to that upstream or to none, where no upstream is
-- without a label.
pub forward-target_of :
    (servers : Map Server) (call : ToolCall) (server : Server)
    → lookup [] servers ≡ none
    → lookup (target_of call.tool) servers ≡ some server
    → ((tool : Text) × (forward servers call
          ≡ server.forward (record {
            tool = tool;
            args = call.args;
            kind = none;
            capability = none;
            session = none;
          })))
      ⊎ (forward servers call ≡ err (unrouted call))
unfolding target_of forward route route_to fall_back forward_to
forward-target_of servers call server labelled held =
    elim (Option-cases (split_at_first sep call.tool)) [
      | inl whole ↦ inr (rw (whole, labelled) refl)
      | inr ((label, tool), split) ↦ inl (
        tool,
        rw
            (
              split,
              known_of servers label server (rw split at held),
              route_to,
              forward_to,
              rw split at held,
            )
            refl,
      )
    ]
