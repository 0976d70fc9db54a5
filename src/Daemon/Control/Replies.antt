-- ===== src/Daemon/Control/Replies.antt =====
-- The responses of the control socket of crates/guardian-daemon/src/lib.rs as JSON, objects with the tag
-- `result`, and what its client reads of them.
use project_guardian.Common.{
  ℕ, Bool, false, Option, none, some, and_then, unwrap_or, List, [], ◌∷◌, ◌++◌, Text, bytes,
  text_eq, if◌then◌else◌,
}
use project_guardian.Core.{
  Value, null, boolean, number, string, array, object, Number, Values, nil, cons, Members, end,
  member, get, as_str, as_bool,
}
use project_guardian.Gateway.State.{GatewayOutcome, allowed, blocked, upstream_error}
use project_guardian.Daemon.Control.{
  PendingView, HistoryView, Response, outcome, responded, approval, audit, vault, error,
}
use project_guardian.Daemon.Control.Wire.{as_u64, read_u8, required, defaulted, nullable}

text_or_null : Option Text → Value
text_or_null none = null
text_or_null (some s) = string s

unfoldable pub pending_to_value : PendingView → Value
unfolding bytes
pending_to_value v = object (
    member (bytes "id") (number (Number.unsigned v.id)) (
      member (bytes "action_id") (string v.action_id) (
        member (bytes "tool") (string v.tool) (
          member (bytes "plain_text") (string v.plain_text)
            (member (bytes "risk") (number (Number.unsigned v.risk)) end)))))

unfoldable pub history_to_value : HistoryView → Value
unfolding text_or_null bytes
history_to_value v = object (
    member (bytes "decision") (string v.decision) (
      member (bytes "kind") (string v.kind) (
        member (bytes "host") (text_or_null v.host) (
          member (bytes "rule") (text_or_null v.rule) (
            member (bytes "reason") (text_or_null v.reason)
              (member (bytes "critical") (boolean v.critical) end))))))

unfoldable pub values_of {ℓ} : {A : Type ℓ} → (A → Value) → List A → Values
values_of to_value [] = nil
values_of to_value (x ∷ xs) = cons (to_value x) (values_of to_value xs)

-- `serde_json::to_value(response)`
tagged : Text → Members → Value
unfolding bytes
tagged result ms = object (member (bytes "result") (string result) ms)

unfoldable pub response_to_value : Response → Value
unfolding tagged values_of pending_to_value history_to_value bytes
response_to_value (outcome status detail) =
    tagged (bytes "outcome")
      (member (bytes "status") (string status) (member (bytes "detail") detail end))
response_to_value (Response.pending items) =
    tagged (bytes "pending") (member (bytes "items") (array (values_of pending_to_value items)) end)
response_to_value (responded done) =
    tagged (bytes "responded") (member (bytes "ok") (boolean done) end)
response_to_value (approval approved) =
    tagged (bytes "approval") (member (bytes "approved") (boolean approved) end)
response_to_value (Response.kill_switch engaged) =
    tagged (bytes "kill_switch") (member (bytes "engaged") (boolean engaged) end)
response_to_value (audit entries intact) = tagged (bytes "audit") (
    member (bytes "entries") (number (Number.unsigned entries))
      (member (bytes "intact") (boolean intact) end))
response_to_value (Response.history items) =
    tagged (bytes "history") (member (bytes "items") (array (values_of history_to_value items)) end)
response_to_value (vault protected tokens values) = tagged (bytes "vault") (
    member (bytes "protected") (number (Number.unsigned protected)) (
      member (bytes "tokens") (number (Number.unsigned tokens))
        (member (bytes "values") (array (values_of string values)) end)))
response_to_value (error message) =
    tagged (bytes "error") (member (bytes "message") (string message) end)

-- `PendingView` read back
unfoldable pub read_pending_view : Value → Option PendingView
unfolding required read_u8 as_u64 as_str bytes
read_pending_view (object ms) = and_then (required as_u64 (bytes "id") ms) (λ id.
    and_then (required as_str (bytes "action_id") ms) (λ action_id.
      and_then (required as_str (bytes "tool") ms) (λ tool.
        and_then (required as_str (bytes "plain_text") ms) (λ plain_text.
          and_then (required read_u8 (bytes "risk") ms) (λ risk. some (record {
            id = id;
            action_id = action_id;
            tool = tool;
            plain_text = plain_text;
            risk = risk;
          }))))))
read_pending_view _ = none

-- `HistoryView` read back
unfoldable pub read_history_view : Value → Option HistoryView
unfolding required defaulted nullable as_str as_bool bytes
read_history_view (object ms) = and_then (required as_str (bytes "decision") ms) (λ decision.
    and_then (required as_str (bytes "kind") ms) (λ kind.
      and_then (defaulted none (nullable as_str) (bytes "host") ms) (λ host.
        and_then (defaulted none (nullable as_str) (bytes "rule") ms) (λ rule.
          and_then (defaulted none (nullable as_str) (bytes "reason") ms) (λ reason.
            and_then (defaulted false as_bool (bytes "critical") ms) (λ critical. some (record {
              decision = decision;
              kind = kind;
              host = host;
              rule = rule;
              reason = reason;
              critical = critical;
            })))))))
read_history_view _ = none

unfoldable pub read_values {ℓ} : {A : Type ℓ} → (Value → Option A) → Values → Option (List A)
read_values read nil = some []
read_values read (cons v vs) =
    and_then (read v) (λ x. and_then (read_values read vs) (λ xs. some (x ∷ xs)))

read_array {ℓ} : {A : Type ℓ} → (Value → Option A) → Value → Option (List A)
unfolding read_values
read_array read (array vs) = read_values read vs
read_array read _ = none

-- `DaemonClient::pending`, of the reply
unfoldable pub pending_of : Value → Option (List PendingView)
unfolding get read_array read_pending_view bytes
pending_of reply = read_array read_pending_view (unwrap_or (get (bytes "items") reply) (array nil))

-- `DaemonClient::history`, of the reply
unfoldable pub history_of : Value → Option (List HistoryView)
unfolding get read_array read_history_view bytes
history_of reply = read_array read_history_view (unwrap_or (get (bytes "items") reply) null)

-- A flag of the reply, false if it is missing.
unfoldable pub flag : Text → Value → Bool
unfolding get as_bool
flag k reply = unwrap_or (and_then (get k reply) as_bool) false

count : Text → Value → ℕ
unfolding get as_u64
count k reply = unwrap_or (and_then (get k reply) as_u64) 0

unfoldable pub strings_of : Values → List Text
unfolding as_str
strings_of nil = []
strings_of (cons v vs) = elim (as_str v) [ none ↦ strings_of vs | some s ↦ s ∷ strings_of vs ]

strings_in : Option Value → List Text
unfolding strings_of
strings_in (some (array vs)) = strings_of vs
strings_in _ = []

unfoldable pub vault_triple : Value → ℕ × ℕ × List Text
unfolding count get strings_in bytes
vault_triple reply = (
  count (bytes "protected") reply,
  count (bytes "tokens") reply,
  strings_in (get (bytes "values") reply),
)

text_in : Text → Text → Value → Text
unfolding get as_str
text_in k missing v = unwrap_or (and_then (get k v) as_str) missing

-- `DaemonClient::call`, of the reply
unfoldable pub outcome_of : Value → GatewayOutcome
unfolding text_in get text_eq bytes
outcome_of reply =
    let status = text_in (bytes "status") [] reply in
    let detail = unwrap_or (get (bytes "detail") reply) null in
    if text_eq status (bytes "allowed")
    then allowed detail
    else if text_eq status (bytes "blocked")
    then blocked (text_in (bytes "reason") (bytes "blocked") detail)
    else if text_eq status (bytes "upstream_error")
    then upstream_error (text_in (bytes "error") (bytes "error") detail)
    else blocked (bytes "unexpected daemon response: " ++ status)
